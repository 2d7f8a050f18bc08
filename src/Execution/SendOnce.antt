-- ===== src/Execution/SendOnce.antt =====
-- Repeated calls of `VirtualDispatcher.send` of execution/virtual.py.
use cherry_pulse_kr.Execution.Found.{find?-requests_Extends}
use cherry_pulse_kr.Execution.Actions.{
  send-claimed, send-failed, send-unowned, after_claim-ok, after_claim-err,
}
use cherry_pulse_kr.Execution.Ingest.{fact_entry, ingest}
use cherry_pulse_kr.Prelude.{
  ◌≡◌, refl, sym, ap, ◌∙◌, subst, ◌≢◌, inl, inr, Bool, true, false, Option, none, some, List, arith,
  if◌then◌else◌, ◌==◌, nat_eq, string_eq, Bool-cases, Option-cases, find?, find?-sound, ok,
  Result-cases,
}
use cherry_pulse_kr.Execution.Models.{Uuid, Datetime, Raises, side_eq, environment_eq, Request}
use cherry_pulse_kr.Execution.Facts.{TransportState, Fact}
use cherry_pulse_kr.Execution.Journal.{Journal}
use cherry_pulse_kr.Execution.External.{External}
use cherry_pulse_kr.Execution.Freshness.{check_freshness}
use cherry_pulse_kr.Execution.Validation.{find_request}
use cherry_pulse_kr.Execution.Lease.{operation}
use cherry_pulse_kr.Execution.Storage.{Payload, Entry}
use cherry_pulse_kr.Execution.Lease.{operation}
use cherry_pulse_kr.Execution.Storage.{Payload, Entry}
use cherry_pulse_kr.Execution.Transaction.{
  Store, Method, pure, lift, read_journal, append_entry, ensure_ready,
}
use cherry_pulse_kr.Execution.Claim.{
  Session, is_sendable, stop_gate, buy_gate, transport_fact, take_claim, claim_ready, claim_request,
  claim, claim_found,
}
use cherry_pulse_kr.Execution.Storage.Extend.{extend}
use cherry_pulse_kr.Execution.History.{
  journal_of, Grown, Grown-refl, Grown-trans, append_entry-extend, lift-eq_ok, ensure_ready-eq_ok,
  transaction_owned, transaction-eq_ok, bind-eq_ok,
}
use cherry_pulse_kr.Execution.Calls.{Operation, run_all, run_all-Grown}
use cherry_pulse_kr.Execution.AppendOnly.{claim-Grows, ingest-Grows}
use cherry_pulse_kr.Execution.Dispatcher.{Dispatcher, after_claim, send}
use cherry_pulse_kr.Execution.Observed.{observed, observed-Extends, not_sendable, observed_new}

module _ (ext : External) where
  claim-owned :
      (id : Uuid) (session : Option Session) (now : Datetime) (n : Uuid) (s : Store)
      {x : Option Request × Store}
      → claim ext id session now n s ≡ ok x
      → (operation s.lease s.process ≡ ok tt)
        × (claim_found ext (journal_of s) (find_request id (journal_of s).requests) session now n s
            ≡ ok x)
  unfolding claim read_journal journal_of
  claim-owned id session now n s h = transaction-eq_ok _ s h

  -- the entry that a claim of the request writes
  abbrev pub claimed : Request → Uuid → Payload
  claimed r n = Payload.fact (transport_fact n r.request_id TransportState.sending)

  take_claim-eq_some :
      (r : Request) (n : Uuid) (s : Store) {y : Request} {s' : Store}
      → take_claim ext r n s ≡ ok (some y, s')
      → (y ≡ r) × (journal_of s' ≡ extend (journal_of s) (claimed r n))
  unfolding take_claim
  take_claim-eq_some r n s {y} {s'} h =
      let e : Entry = fact_entry ext (transport_fact n r.request_id TransportState.sending) in
      let done : Method (Option Request) = pure (some r) in
      let (u, t, p, q) = bind-eq_ok (append_entry e) (λ _. done) s h in
      let same : t ≡ s' = ground arith in
      (ground arith, ap journal_of (sym same) ∙ append_entry-extend e s p)

  -- A claim that returns a request has appended its entry.
  claim_ready-eq_some :
      (j : Journal) (r : Request) (now : Datetime) (n : Uuid) (s : Store) {y : Request} {s' : Store}
      → claim_ready ext j r now n s ≡ ok (some y, s')
      → (y ≡ r) × (journal_of s' ≡ extend (journal_of s) (claimed r n))
  unfolding claim_ready
  claim_ready-eq_some j r now n s {y} {s'} h =
      let (u1, s1, p1, q1) = bind-eq_ok ensure_ready _ s h in
      let (u2, s2, p2, q2) = bind-eq_ok (lift (check_freshness j r.command now)) _ s1 q1 in
      let gate : Bool → Method (Option Request) =
        λ allowed. if allowed then take_claim ext r n else pure none in
      let (b, s3, p3, q3) = bind-eq_ok (lift (buy_gate j r)) gate s2 q2 in
      let e : s3 ≡ s =
        (lift-eq_ok (buy_gate j r) s2 p3).1
        ∙ (lift-eq_ok (check_freshness j r.command now) s1 p2).1
        ∙ (ensure_ready-eq_ok s p1).1 in
      elim (Bool-cases b) [
        | inl holds ↦ take_claim-eq_some r n s (rw (holds, e) at q3)
        | inr fails ↦ absurd (ground (arith, rw fails at q3))
      ]

  claim_request-eq_some :
      (j : Journal) (r : Request) (session : Option Session) (now : Datetime) (n : Uuid) (s : Store)
      {y : Request} {s' : Store}
      → claim_request ext j r session now n s ≡ ok (some y, s')
      → (is_sendable j r ≡ true) × (y ≡ r) × (journal_of s' ≡ extend (journal_of s) (claimed r n))
  unfolding claim_request
  claim_request-eq_some j r session now n s {y} {s'} h = elim (Bool-cases (is_sendable j r)) [
    | inr fails ↦ absurd (ground (arith, rw (fails, claim_request) at h))
    | inl holds ↦
        let gate : Bool → Method (Option Request) =
          λ allowed. if allowed then claim_ready ext j r now n else pure none in
        let (b, t, p, q) =
          bind-eq_ok (lift (stop_gate j r session)) gate s (rw (holds, claim_request) at h) in
        let e = (lift-eq_ok (stop_gate j r session) s p).1 in
        elim (Bool-cases b) [
          | inl open_gate ↦
              let (same, grown) = claim_ready-eq_some j r now n s (rw (open_gate, e) at q) in
              (holds, same, grown)
          | inr shut ↦ absurd (ground (arith, rw shut at q))
        ]
  ]

  -- A claim that returns a request found it under the identity, as an intention that could be
  -- sent, and has appended its SENDING fact.
  pub claim-eq_some :
      (id : Uuid) (session : Option Session) (now : Datetime) (n : Uuid) (s : Store) {y : Request}
      {s' : Store}
      → claim ext id session now n s ≡ ok (some y, s')
      → (find_request id (journal_of s).requests ≡ some y)
        × (is_sendable (journal_of s) y ≡ true)
        × (journal_of s' ≡ extend (journal_of s) (claimed y n))
  unfolding claim_found
  claim-eq_some id session now n s {y} {s'} h =
      let j = journal_of s in
      let (own, k) = claim-owned id session now n s h in
      elim (Option-cases (find_request id j.requests)) [
        | inl p ↦ absurd (ground (arith, rw (p, claim_found) at k))
        | inr (r, p) ↦
            let (a, e, b) = claim_request-eq_some j r session now n s (rw (p, claim_found) at k) in
            (p ∙ ap some (sym e), rw e a, rw e b)
      ]

  -- A claim of a request whose transport was observed does nothing.
  claim_again :
      (r : Request) (session : Option Session) (now : Datetime) (n : Uuid) (s : Store)
      → operation s.lease s.process ≡ ok tt
      → find_request r.request_id (journal_of s).requests ≡ some r
      → observed r.request_id (journal_of s).facts ≡ true
      → claim ext r.request_id session now n s ≡ ok (none, s)
  unfolding claim claim_found claim_request read_journal journal_of
  claim_again r session now n s own found h =
      transaction_owned _ s own ∙ rw (found, not_sendable (journal_of s) r h) refl

  claim_never :
      (id : Uuid) (session : Option Session) (now : Datetime) (n : Uuid) (s : Store) {y : Request}
      {s' : Store}
      → claim ext id session now n s ≡ ok (some y, s')
      → (t : Store) → Grown s' t
      → (session' : Option Session) (now' : Datetime) (n' : Uuid)
      → claim ext id session' now' n' t ≡ ok (none, t)
  unfolding find_request
  claim_never id session now n s {y} {s'} h t g session' now' n' =
      let (found, _, grown) = claim-eq_some id session now n s h in
      let all = Grown-trans ((claim-Grows ext id session now n).at s h) g in
      let own = (claim-owned id session now n s h).0 in
      let same : y.request_id ≡ id =
        (nat_eq.equal_iff _ _).0
          (find?-sound (λ r. r.request_id == id) (journal_of s).requests found) in
      let kept = find?-requests_Extends (λ r. r.request_id == id) all.entries found in
      subst (λ i. claim ext i session' now' n' t ≡ ok (none, t)) same
        (claim_again y session' now' n' t (rw (all.lease, all.process) own)
          (subst (λ i. find? (λ r. r.request_id == i) (journal_of t).requests ≡ some y) (sym same)
            kept)
          (observed-Extends y.request_id g.entries
            (rw grown (observed_new y.request_id n TransportState.sending (journal_of s).facts))))

  after_claim-Grown :
      (b : Uuid) (y : Request) (d : Dispatcher)
      → Grown d.store (after_claim ext b (some y) d).1.store
  unfolding after_claim
  after_claim-Grown b y d =
      let f : Fact = transport_fact b y.request_id TransportState.sent in
      elim (Result-cases (ingest ext f d.store)) [
        | inl ((x, s'), p) ↦ rw (after_claim-ok ext b y d p) ((ingest-Grows ext f).at d.store p)
        | inr (e, p) ↦ rw (after_claim-err ext b y d p) (Grown-refl d.store)
      ]

  send-called :
      (id : Uuid) (session : Option Session) (now : Datetime) (a b : Uuid) (d : Dispatcher)
      → (send ext id session now a b d).1.calls ≢ d.calls
      → (y : Request) × (s' : Store) × (claim ext id session now a d.store ≡ ok (some y, s'))
        × ((send ext id session now a b d).1
            ≡ (after_claim ext b (some y) (record d { store = s' })).1)
  unfolding send after_claim
  send-called id session now a b d called =
      let calls_of : Raises Bool × Dispatcher → List Request = λ r. r.1.calls in
      elim (Result-cases (operation d.store.lease d.store.process)) [
        | inr (e, p) ↦ absurd (called (ap calls_of (send-unowned ext id session now a b d p)))
        | inl (u, p) ↦ elim (Result-cases (claim ext id session now a d.store)) [
          | inr (e, q) ↦ absurd (called (ap calls_of (send-failed ext id session now a b d p q)))
          | inl ((none, s'), q) ↦
              absurd (called (ap calls_of (send-claimed ext id session now a b d p q)))
          | inl ((some y, s'), q) ↦ (
            y,
            s',
            q,
            ap (λ (r : Raises Bool × Dispatcher). r.1) (send-claimed ext id session now a b d p q),
          )
        ]
      ]

  -- A send that simulated a call does so once: whatever transactions of the ledger and of the
  -- dispatcher come after, sending the same request again answers false, simulates no call and
  -- changes nothing.
  pub send_once :
      (id : Uuid) (session : Option Session) (now : Datetime) (a b : Uuid) (d : Dispatcher)
      → (send ext id session now a b d).1.calls ≢ d.calls
      → (ops : List Operation) (session' : Option Session) (now' : Datetime) (a' b' : Uuid)
      → let d' = (send ext id session now a b d).1 in
        let e : Dispatcher = record d' { store = run_all ext ops d'.store } in
        send ext id session' now' a' b' e ≡ (ok false, e)
  unfolding send after_claim
  send_once id session now a b d called ops session' now' a' b' =
      let (y, s', p, q) = send-called id session now a b d called in
      let d' = (send ext id session now a b d).1 in
      let grown : Grown s' d'.store = rw q (after_claim-Grown b y (record d { store = s' })) in
      let g = Grown-trans grown (run_all-Grown ext ops d'.store) in
      let t = run_all ext ops d'.store in
      let refused = claim_never id session now a d.store p t g session' now' a' in
      let own : operation t.lease t.process ≡ ok tt =
        (claim-owned id session' now' a' t refused).0 in
      send-claimed ext id session' now' a' b' (record d' { store = t }) own refused
