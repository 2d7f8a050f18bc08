-- ===== src/Execution/LatchedOnce.antt =====
-- What a latch of a symbol rules out for the later calls (execution/ledger.py).
use cherry_pulse_kr.Execution.StopCandidates.{is_drop}
use cherry_pulse_kr.Execution.Ready.{IsReady}
use cherry_pulse_kr.Prelude.{
  ◌≡◌, refl, sym, ◌∙◌, Bool, true, false, ◌++◌, append-nil, nat_eq, string_eq, ◌==◌,
  find?-append_some, pick, Option, none, some, List, [], ◌∷◌, ok, if◌then◌else◌, not, ◌≢◌, arith,
  ap, subst,
}
use cherry_pulse_kr.Execution.Models.{Key, StopLatch, side_eq, environment_eq, RuleKind}
use cherry_pulse_kr.Execution.Journal.{Journal}
use cherry_pulse_kr.Execution.External.{External}
use cherry_pulse_kr.Execution.Storage.{Payload, as_stop_latch}
use cherry_pulse_kr.Execution.Storage.Extend.{extend}
use cherry_pulse_kr.Execution.Transaction.{
  Store, Method, transaction, ensure_ready, read_journal, ◌>>=◌,
}
use cherry_pulse_kr.Execution.StopQuotes.{
  latch_for, cursor_for, order_rejection, latch_rejection, or_else, quote_rejection_reason,
  process_virtual_stop_quote, rejected_input,
}
use cherry_pulse_kr.Execution.StopLatches.{
  latch_of_kind, latch_virtual_price_stop, latch_virtual_cost_stop,
}
use cherry_pulse_kr.Contracts.StopEvaluation.{Quote, ObserveAt, StopReason, is_stale}
use cherry_pulse_kr.Execution.History.{
  journal_of, Extends, transaction_owned, bind-ok, ensure_ready-ok, read_journal-ok,
}
use cherry_pulse_kr.Execution.Calls.{Operation, run_all, run_all-Grown}

latches-extend :
    (j : Journal) (p : Payload)
    → (extend j p).stop_latches ≡ j.stop_latches ++ pick as_stop_latch (p ∷ [])
latches-extend j (Payload.stop_latch x) = refl
latches-extend j _ = sym (append-nil j.stop_latches)

pub latch_for-Extends :
    (symbol : Key) {j k : Journal} {l : StopLatch}
    → Extends j k
    → latch_for symbol j ≡ some l
    → latch_for symbol k ≡ some l
latch_for-Extends symbol Extends.here h = h
latch_for-Extends symbol (Extends.more {k = k} x g e) h =
    rw (e, latches-extend) (find?-append_some _ k.stop_latches _ (latch_for-Extends symbol g h))

order_or_latch :
    (r : Option StopReason) (l : StopLatch)
    → (x : StopReason) × (or_else r (latch_rejection (some l)) ≡ some x)
order_or_latch none l = (StopReason.stop_already_latched, refl)
order_or_latch (some x) l = (x, refl)

guarded :
    {A : Type 0} (b : Bool) (x : A) (r : Option A)
    → (y : A) × (r ≡ some y)
    → (y : A) × ((if b then some x else r) ≡ some y)
guarded true x r h = (x, refl)
guarded false x r h = h

-- A quote of a latched symbol is rejected.
latched-rejected :
    (j : Journal) (symbol : Key) (q : Quote) (t : ObserveAt) {l : StopLatch}
    → latch_for symbol j ≡ some l
    → (x : StopReason) × (quote_rejection_reason j symbol q t ≡ some x)
unfolding quote_rejection_reason
latched-rejected j symbol q t {l} h = rw h (
    guarded (not (q.symbol == symbol)) _ _ (
      guarded (is_stale t q.received_at) _ _
        (order_or_latch (order_rejection q t (cursor_for symbol j)) l)))

-- a method in a session that is ready
ready-ok :
    {A : Type 0} (f : Journal → Method A) (s : Store)
    → IsReady s
    → transaction (ensure_ready >>= λ u. read_journal >>= f) s ≡ f (journal_of s) s
ready-ok f s h =
    transaction_owned _ s h.operating
    ∙ bind-ok ensure_ready _ s (ensure_ready-ok s h.ready)
    ∙ bind-ok read_journal f s (read_journal-ok s)

process-latched :
    (symbol : Key) (q : Quote) (t : ObserveAt) (s : Store) {l : StopLatch}
    → IsReady s
    → latch_for symbol (journal_of s) ≡ some l
    → (x : StopReason) × (process_virtual_stop_quote symbol q t s
        ≡ ok (rejected_input (journal_of s) symbol x, s))
unfolding process_virtual_stop_quote
process-latched symbol q t s ready found =
    let (x, rejected) = latched-rejected (journal_of s) symbol q t found in
    (x, ready-ok _ s ready ∙ rw rejected refl)

price-latched :
    (symbol : Key) (q : Option Quote) (t : ObserveAt) (s : Store) {l : StopLatch}
    → IsReady s
    → latch_for symbol (journal_of s) ≡ some l
    → latch_virtual_price_stop symbol q t s ≡ ok (latch_of_kind false l, s)
unfolding latch_virtual_price_stop
price-latched symbol q t s ready found = ready-ok _ s ready ∙ rw found refl

cost-latched :
    (symbol : Key) (q : Option Quote) (t : ObserveAt) (s : Store) {l : StopLatch}
    → IsReady s
    → latch_for symbol (journal_of s) ≡ some l
    → latch_virtual_cost_stop symbol q t s ≡ ok (latch_of_kind true l, s)
unfolding latch_virtual_cost_stop
cost-latched symbol q t s ready found = ready-ok _ s ready ∙ rw found refl

-- What a latching call for stops of one kind may answer: the recorded latch, if it has the kind.
pub data IsAnswer (kind : RuleKind) (l : StopLatch) : Option StopLatch → Type 0 where
  recorded : l.rule_kind ≡ kind → IsAnswer kind l (some l)
  other : l.rule_kind ≢ kind → IsAnswer kind l none

kind_answered :
    (drop : Bool) (l : StopLatch) (k : RuleKind)
    → l.rule_kind ≡ k
    → IsAnswer
        (if drop then RuleKind.average_cost_drop else RuleKind.price_at_or_below)
        l
        (latch_of_kind drop l)
kind_answered true l RuleKind.average_cost_drop e =
    let same : latch_of_kind true l ≡ some l =
      ap (λ (k : RuleKind). if is_drop k then some l else none) e in
    subst (IsAnswer RuleKind.average_cost_drop l) (sym same) (IsAnswer.recorded e)
kind_answered true l RuleKind.price_at_or_below e =
    rw (latch_of_kind, e) (IsAnswer.other (λ h. absurd (ground (arith, e, h))))
kind_answered false l RuleKind.price_at_or_below e =
    let same : latch_of_kind false l ≡ some l =
      ap (λ (k : RuleKind). if is_drop k then none else some l) e in
    subst (IsAnswer RuleKind.price_at_or_below l) (sym same) (IsAnswer.recorded e)
kind_answered false l RuleKind.average_cost_drop e =
    rw (latch_of_kind, e) (IsAnswer.other (λ h. absurd (ground (arith, e, h))))

module _ (ext : External) where
  IsReady-run_all : (ops : List Operation) (s : Store) → IsReady s → IsReady (run_all ext ops s)
  IsReady-run_all ops s h =
      let g = run_all-Grown ext ops s in
      record {
        operating = rw (g.lease, g.process) h.operating;
        ready = rw (g.lease, g.process) h.ready;
      }

  -- Once a stop of a symbol is latched in a session that is ready, its latch is the one found
  -- after whatever transactions of Calls.Operation; from then on every quote of the symbol is
  -- rejected and every further latching call answers the recorded latch where that has the kind
  -- that is asked for, and no latch otherwise, and none of these calls changes anything.
  pub latched_for_good :
      (symbol : Key) (s : Store) {l : StopLatch}
      → IsReady s
      → latch_for symbol (journal_of s) ≡ some l
      → (ops : List Operation) (q : Quote) (t : ObserveAt)
      → let u : Store = run_all ext ops s in
        (latch_for symbol (journal_of u) ≡ some l)
        × ((x : StopReason) × (process_virtual_stop_quote symbol q t u
              ≡ ok (rejected_input (journal_of u) symbol x, u)))
        × ((x : Option StopLatch) × IsAnswer RuleKind.price_at_or_below l x
            × (latch_virtual_price_stop symbol (some q) t u ≡ ok (x, u)))
        × ((x : Option StopLatch) × IsAnswer RuleKind.average_cost_drop l x
            × (latch_virtual_cost_stop symbol (some q) t u ≡ ok (x, u)))
  latched_for_good symbol s {l} ready found ops q t =
      let u : Store = run_all ext ops s in
      let g = run_all-Grown ext ops s in
      let later = latch_for-Extends symbol g.entries found in
      let still = IsReady-run_all ops s ready in
      (
        later,
        process-latched symbol q t u still later,
        (
          latch_of_kind false l,
          kind_answered false l l.rule_kind refl,
          price-latched symbol (some q) t u still later,
        ),
        (
          latch_of_kind true l,
          kind_answered true l l.rule_kind refl,
          cost-latched symbol (some q) t u still later,
        ),
      )
