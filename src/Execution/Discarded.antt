-- ===== src/Execution/Discarded.antt =====
-- `Ledger.discard` of execution/ledger.py, and the sends of execution/virtual.py after it.
use cherry_pulse_kr.Execution.Dispatcher.{Dispatcher, send, after_claim}
use cherry_pulse_kr.Execution.Actions.{send-claimed}
use cherry_pulse_kr.Execution.AppendOnly.{discard-Grows}
use cherry_pulse_kr.Prelude.{
  ℕ, ◌≡◌, refl, sym, ap, ◌∙◌, subst, inl, inr, Bool, true, false, not, ◌&&◌, Option, none, some,
  List, [], ◌∷◌, arith, ◌==◌, nat_eq, string_eq, decided_iff, Bool-cases, Option-cases, any, keep,
  find?, any-append, find?-sound, ok, raise_if,
}
use cherry_pulse_kr.Execution.Models.{
  Uuid, Key, Datetime, LedgerError, Raises, side_eq, environment_eq, Request,
}
use cherry_pulse_kr.Execution.Facts.{Fact, Fact-discrete, same_fact}
use cherry_pulse_kr.Execution.Journal.{Journal, revision}
use cherry_pulse_kr.Execution.Outcomes.{concerns, status, request_state, is_send_failed}
use cherry_pulse_kr.Execution.External.{External}
use cherry_pulse_kr.Execution.Validation.{find_request, check_fact}
use cherry_pulse_kr.Execution.Lease.{operation}
use cherry_pulse_kr.Execution.Storage.{Payload}
use cherry_pulse_kr.Execution.Transaction.{
  Store, Method, pure, lift, append_entry, read_journal, ensure_ready,
}
use cherry_pulse_kr.Execution.Ingest.{
  discard, discard_fact, retire_intention, settle, is_event, fact_entry,
}
use cherry_pulse_kr.Execution.Claim.{claim, claim_found, claim_request, is_sendable, Session}
use cherry_pulse_kr.Execution.Storage.Extend.{extend}
use cherry_pulse_kr.Execution.History.{
  journal_of, Extends, Grown-trans, append_entry-extend, lift-eq_ok, ensure_ready-eq_ok,
  transaction_owned, transaction-eq_ok, bind-eq_ok,
}
use cherry_pulse_kr.Execution.Calls.{Operation, run_all, run_all-Grown}
use cherry_pulse_kr.Execution.Found.{facts-extend}
use cherry_pulse_kr.Execution.External.{External}

-- a discard of the request, or another proof that it was not sent
abbrev proves_unsent : Uuid → Fact → Bool
proves_unsent id f = concerns id f && is_send_failed f

any-keep :
    (id : Uuid) (fs : List Fact)
    → any is_send_failed (keep (concerns id) fs) ≡ any (proves_unsent id) fs
any-keep id [] = refl
any-keep id (f ∷ fs) = ground (arith, any-keep id fs)

find?-any {ℓ} :
    {A : Type ℓ} (p q : A → Bool) (xs : List A) (a : A)
    → find? p xs ≡ some a
    → q a ≡ true
    → any q xs ≡ true
find?-any p q [] a h g = cc
find?-any p q (x ∷ xs) a h g = elim (Bool-cases (p x)) [
  | inl hit ↦ let e : x ≡ a = ground (arith, rw hit at h) in rw (e, g) refl
  | inr miss ↦ ground (arith, find?-any p q xs a (rw miss at h) g)
]

unsent-Extends :
    (id : Uuid) {j k : Journal}
    → Extends j k
    → any (proves_unsent id) j.facts ≡ true
    → any (proves_unsent id) k.facts ≡ true
unsent-Extends id Extends.here h = h
unsent-Extends id (Extends.more {k = k} p g e) h =
    let kept = unsent-Extends id g h in
    rw (e, facts-extend, any-append (proves_unsent id) k.facts, kept) refl

-- A request that is proved unsent cannot be sent.
unsent_not_sendable :
    (j : Journal) (r : Request)
    → any (proves_unsent r.request_id) j.facts ≡ true
    → is_sendable j r ≡ false
unfolding is_sendable request_state status
unsent_not_sendable j r h =
    let failed : any is_send_failed (keep (concerns r.request_id) j.facts) ≡ true =
      any-keep r.request_id j.facts ∙ h in
    ground (arith, failed)

module _ (ext : External) where
  discard-settle :
      (id : Uuid) (reason : Key) (n : ℕ) (s : Store)
      → operation s.lease s.process ≡ ok tt
      → let f = discard_fact ext id reason in
        discard ext id reason n s
        ≡ settle f
            (find? (is_event f) (journal_of s).facts)
            (retire_intention ext (journal_of s) f n)
            s
  unfolding discard read_journal journal_of
  discard-settle id reason n s own = transaction_owned _ s own

  discard-owned :
      (id : Uuid) (reason : Key) (n : ℕ) (s : Store) {x : Bool × Store}
      → discard ext id reason n s ≡ ok x
      → operation s.lease s.process ≡ ok tt
  unfolding discard
  discard-owned id reason n s h = (transaction-eq_ok _ s h).0

  retire-eq_ok :
      (j : Journal) (f : Fact) (n : ℕ) (s : Store) {b : Bool} {s' : Store}
      → retire_intention ext j f n s ≡ ok (b, s')
      → journal_of s' ≡ extend (journal_of s) (Payload.fact f)
  unfolding retire_intention
  retire-eq_ok j f n s {b} {s'} h =
      let stale : Raises (Unit {0}) =
        raise_if (not (revision j == n)) LedgerError.stale_discard_review in
      let done : Method Bool = pure true in
      let (u1, s1, p1, q1) = bind-eq_ok ensure_ready _ s h in
      let (u2, s2, p2, q2) = bind-eq_ok (lift stale) _ s1 q1 in
      let (u3, s3, p3, q3) = bind-eq_ok (lift (check_fact ext j f)) _ s2 q2 in
      let (u4, s4, p4, q4) = bind-eq_ok (append_entry (fact_entry ext f)) (λ u. done) s3 q3 in
      let e : s3 ≡ s =
        (lift-eq_ok (check_fact ext j f) s2 p3).1
        ∙ (lift-eq_ok stale s1 p2).1
        ∙ (ensure_ready-eq_ok s p1).1 in
      let last : s4 ≡ s' = ground arith in
      ap journal_of (sym last)
      ∙ append_entry-extend (fact_entry ext f) s3 p4
      ∙ ap (λ k. extend (journal_of k) (Payload.fact f)) e

  -- A discard that returns leaves a proof that the request was not sent.
  discard-eq_ok :
      (id : Uuid) (reason : Key) (n : ℕ) (s : Store) {b : Bool} {s' : Store}
      → discard ext id reason n s ≡ ok (b, s')
      → any (proves_unsent id) (journal_of s').facts ≡ true
  unfolding settle
  discard-eq_ok id reason n s {b} {s'} h =
      let f = discard_fact ext id reason in
      let self : (id == id) ≡ true = (nat_eq.equal_iff _ _).1 refl in
      let run = sym (discard-settle id reason n s (discard-owned id reason n s h)) ∙ h in
      elim (Option-cases (find? (is_event f) (journal_of s).facts)) [
        | inl p ↦
            let grown = retire-eq_ok (journal_of s) f n s {b = b} {s' = s'} (rw p at run) in
            rw (grown, any-append (proves_unsent id) (journal_of s).facts (f ∷ []), self)
              (ground arith)
        | inr (g, p) ↦ elim (Bool-cases (same_fact g f)) [
          | inl same ↦
              let e : g ≡ f = (decided_iff (Fact-discrete g f)).0 same in
              let here : s' ≡ s = ground (arith, rw (p, same) at run) in
              rw here (
                find?-any (is_event f) (proves_unsent id) (journal_of s).facts f (p ∙ ap some e)
                  (rw self refl))
          | inr other ↦ absurd (ground (arith, rw (p, other) at run))
        ]
      ]

  claim_unsent-found :
      (j : Journal) (found : Option Request) (id : Uuid) (session : Option Session) (now : Datetime)
      (n : Uuid) (s : Store)
      → find_request id j.requests ≡ found
      → any (proves_unsent id) j.facts ≡ true
      → claim_found ext j found session now n s ≡ ok (none, s)
  unfolding claim_found claim_request find_request
  claim_unsent-found j none id session now n s p h = refl
  claim_unsent-found j (some r) id session now n s p h =
      let same : r.request_id ≡ id =
        (nat_eq.equal_iff _ _).0 (find?-sound (λ y. y.request_id == id) j.requests p) in
      let blocked : is_sendable j r ≡ false =
        unsent_not_sendable j r (subst (λ i. any (proves_unsent i) j.facts ≡ true) (sym same) h) in
      rw (claim_found, claim_request, blocked) refl

  claim_unsent :
      (id : Uuid) (session : Option Session) (now : Datetime) (n : Uuid) (s : Store)
      → operation s.lease s.process ≡ ok tt
      → any (proves_unsent id) (journal_of s).facts ≡ true
      → claim ext id session now n s ≡ ok (none, s)
  unfolding claim read_journal journal_of
  claim_unsent id session now n s own h =
      transaction_owned _ s own
      ∙ claim_unsent-found (journal_of s) (find_request id (journal_of s).requests) id session now n
          s refl h

  -- Once an intention was discarded, whatever transactions of the ledger and of the dispatcher
  -- come after, sending its request answers false, simulates no call and changes nothing.
  pub discard_never_sent :
      (id : Uuid) (reason : Key) (n : ℕ) (s : Store) {b : Bool} {s' : Store}
      → discard ext id reason n s ≡ ok (b, s')
      → (ops : List Operation) (session : Option Session) (now : Datetime) (first second : Uuid)
        (calls : List Request)
      → let d : Dispatcher = record { store = run_all ext ops s'; calls = calls } in
        send ext id session now first second d ≡ (ok false, d)
  unfolding after_claim
  discard_never_sent id reason n s {b} {s'} h ops session now first second calls =
      let t = run_all ext ops s' in
      let g = Grown-trans ((discard-Grows ext id reason n).at s h) (run_all-Grown ext ops s') in
      let own : operation t.lease t.process ≡ ok tt =
        rw (g.lease, g.process) (discard-owned id reason n s h) in
      let unsent =
        unsent-Extends id (run_all-Grown ext ops s').entries (discard-eq_ok id reason n s h) in
      send-claimed ext id session now first second (record { store = t; calls = calls }) own
        (claim_unsent id session now first t own unsent)
