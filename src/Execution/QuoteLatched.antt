-- ===== src/Execution/QuoteLatched.antt =====
-- What an evaluated quote leaves in the journal (execution/ledger.py).
use cherry_pulse_kr.Prelude.{
  ◌≡◌, refl, sym, ◌∙◌, ap, inl, inr, nat_eq, string_eq, ◌==◌, find?, find?-append_none, Option,
  Option-cases, Bool-cases, none, some, [], ◌∷◌, ok, arith,
}
use cherry_pulse_kr.Execution.Price.{Price}
use cherry_pulse_kr.Execution.Models.{
  Key, StopLatch, VirtualStopBinding, StopQuoteCheckpoint, side_eq, environment_eq,
}
use cherry_pulse_kr.Execution.Journal.{Journal}
use cherry_pulse_kr.Execution.Storage.{checkpoint_stop_quote, read}
use cherry_pulse_kr.Execution.Transaction.{
  Store, Method, pure, lift, ensure_ready, read_journal, ◌>>=◌, append_entry,
}
use cherry_pulse_kr.Execution.StopQuotes.{
  VirtualStopInputResult, latch_for, or_else, latch_rejection, order_rejection, cursor_for,
  quote_rejection_reason, process_virtual_stop_quote, accept_quote, rejected_input, accepted_input,
  write_checkpoint, checkpoint_of, latch_if, latch_of, trigger_of, quote_text,
  evaluate_virtual_quote,
}
use cherry_pulse_kr.Contracts.StopEvaluation.{Quote, ObserveAt, StopReason, is_stale}
use cherry_pulse_kr.Execution.Found.{key_refl}
use cherry_pulse_kr.Execution.History.{
  journal_of, transaction-eq_ok, bind-eq_ok, lift-eq_ok, ensure_ready-eq_ok, read_journal-eq_ok,
  append_entry-extend,
}

-- a method that reads the journal of a session that is ready
ready-eq_ok :
    {A : Type 0} (f : Journal → Method A) (s : Store) {p : A × Store}
    → (ensure_ready >>= λ u. read_journal >>= f) s ≡ ok p
    → f (journal_of s) s ≡ ok p
ready-eq_ok f s h =
    let (u1, s1, p1, q1) = bind-eq_ok ensure_ready _ s h in
    let (j, s2, p2, q2) = bind-eq_ok read_journal f s1 q1 in
    let (a1, e1) = ensure_ready-eq_ok s p1 in
    let (a2, e2) = read_journal-eq_ok s1 p2 in rw (a2, e2, e1) at q2

write_checkpoint-latches :
    (p : StopQuoteCheckpoint) (s : Store) {u : Unit {0}} {s' : Store}
    → write_checkpoint p s ≡ ok (u, s')
    → (journal_of s').stop_latches ≡ (journal_of s).stop_latches
unfolding write_checkpoint journal_of read checkpoint_stop_quote
write_checkpoint-latches p s {s' = s'} h =
    let e : s' ≡ record s { db = checkpoint_stop_quote s.lease.scope p s.db } = ground arith in
    rw e refl

latch_if-latches :
    (symbol : Key) (text : Price) (q : Quote) (b : Option VirtualStopBinding) (s : Store)
    {l : StopLatch} {s' : Store}
    → latch_for symbol (journal_of s) ≡ none
    → latch_if symbol text q b s ≡ ok (some l, s')
    → latch_for symbol (journal_of s') ≡ some l
latch_if-latches symbol text q none s before h = absurd (ground arith)
latch_if-latches symbol text q (some b) s {l} {s'} before h =
    let done : Method (Option StopLatch) = pure (some (latch_of symbol text q b)) in
    let (u, s1, p, r) = bind-eq_ok (append_entry _) (λ _. done) s h in
    let grown = append_entry-extend _ s p in
    let latch : StopLatch = latch_of symbol text q b in
    let e : s1 ≡ s' = ground arith in
    let same : some latch ≡ some l = ground arith in
    let new_one : find? (λ x. x.symbol == symbol) (latch ∷ []) ≡ some latch =
      rw (key_refl symbol) refl in
    rw (sym e, grown)
      (find?-append_none _ (journal_of s).stop_latches (latch ∷ []) before ∙ new_one ∙ same)

-- A quote that is not rejected finds no latch.
unrejected :
    (r : Option StopReason) (l : Option StopLatch) → or_else r (latch_rejection l) ≡ none → l ≡ none
unrejected none none h = refl
unrejected none (some l) h = absurd (ground arith)
unrejected (some r) l h = absurd (ground arith)

-- A quote that is not rejected is for a symbol without latch.
no_latch :
    (j : Journal) (symbol : Key) (q : Quote) (t : ObserveAt)
    → quote_rejection_reason j symbol q t ≡ none
    → latch_for symbol j ≡ none
unfolding quote_rejection_reason
no_latch j symbol q t h = elim (Bool-cases (q.symbol == symbol)) [
  | inr other ↦ absurd (ground (arith, rw other at h))
  | inl same ↦ elim (Bool-cases (is_stale t q.received_at)) [
    | inl stale ↦ absurd (ground (arith, rw (same, stale) at h))
    | inr fresh ↦
        unrejected (order_rejection q t (cursor_for symbol j)) (latch_for symbol j)
          (rw (same, fresh) at h)
  ]
]

accept-latches :
    (symbol : Key) (q : Quote) (t : ObserveAt) (s : Store) {r : VirtualStopInputResult} {s' : Store}
    {l : StopLatch}
    → latch_for symbol (journal_of s) ≡ none
    → accept_quote (journal_of s) symbol q t s ≡ ok (r, s')
    → r.latch ≡ some l
    → latch_for symbol (journal_of s') ≡ some l
unfolding accept_quote
accept-latches symbol q t s {r} {s'} {l} before h latched =
    let (e, s1, p1, q1) =
      bind-eq_ok (lift (evaluate_virtual_quote (journal_of s) symbol q t)) _ s h in
    let (text, s2, p2, q2) = bind-eq_ok (lift (quote_text q.price)) _ s1 q1 in
    let answered : Option StopLatch → Method VirtualStopInputResult =
      λ o. pure (accepted_input e.0 o) in
    let latching : Unit {0} → Method VirtualStopInputResult =
      λ u. latch_if symbol text q (trigger_of e) >>= answered in
    let (u, s3, p3, q3) =
      bind-eq_ok (write_checkpoint (checkpoint_of symbol text q t)) latching s2 q2 in
    let (found, s4, p4, q4) = bind-eq_ok (latch_if symbol text q (trigger_of e)) answered s3 q3 in
    let (a1, e1) = lift-eq_ok (evaluate_virtual_quote (journal_of s) symbol q t) s p1 in
    let (a2, e2) = lift-eq_ok (quote_text q.price) s1 p2 in
    let last : s4 ≡ s' = ground arith in
    let result : accepted_input e.0 found ≡ r = ground arith in
    let same : found ≡ some l = ap (λ x. x.latch) result ∙ latched in
    let kept : latch_for symbol (journal_of s3) ≡ none =
      rw (write_checkpoint-latches _ s2 p3, e2, e1) before in
    rw (sym last) (latch_if-latches symbol text q (trigger_of e) s3 kept (rw same at p4))

rejected-latches :
    (j : Journal) (symbol : Key) (x : StopReason) {l : StopLatch}
    → (rejected_input j symbol x).latch ≡ some l
    → latch_for symbol j ≡ some l
rejected-latches j symbol StopReason.stop_already_latched h = h
rejected-latches j symbol _ h = absurd (ground arith)

-- When the evaluation of a quote answers with a latch, that latch is the one that the journal
-- has for the symbol afterwards, whether it was set by this quote or was there.
pub quote_latches :
    (symbol : Key) (q : Quote) (t : ObserveAt) (s : Store) {r : VirtualStopInputResult} {s' : Store}
    {l : StopLatch}
    → process_virtual_stop_quote symbol q t s ≡ ok (r, s')
    → r.latch ≡ some l
    → latch_for symbol (journal_of s') ≡ some l
unfolding process_virtual_stop_quote
quote_latches symbol q t s {r} {s'} {l} h latched =
    let (own, body) = transaction-eq_ok _ s h in
    let called = ready-eq_ok _ s body in
    elim (Option-cases (quote_rejection_reason (journal_of s) symbol q t)) [
      | inl p ↦
          accept-latches symbol q t s (no_latch (journal_of s) symbol q t p) (rw p at called)
            latched
      | inr (x, p) ↦
          let answer = rw p at called in
          let result : rejected_input (journal_of s) symbol x ≡ r = ground arith in
          let same : s ≡ s' = ground arith in
          rw (sym same)
            (rejected-latches (journal_of s) symbol x (ap (λ y. y.latch) result ∙ latched))
    ]
