-- ===== src/Execution/Actions.antt =====
-- How the steps of a method of `VirtualDispatcher` (execution/virtual.py) follow each other.
use cherry_pulse_kr.Prelude.{
  ◌≡◌, refl, ap, Bool, Option, some, ok, err, nat_eq, string_eq, ◌∙◌, true,
}
use cherry_pulse_kr.Execution.Models.{
  Uuid, Datetime, Request, LedgerError, Raises, side_eq, environment_eq,
}
use cherry_pulse_kr.Execution.Facts.{TransportState}
use cherry_pulse_kr.Execution.External.{External}
use cherry_pulse_kr.Execution.Lease.{operation}
use cherry_pulse_kr.Execution.Transaction.{Store, Method}
use cherry_pulse_kr.Execution.Ingest.{ingest}
use cherry_pulse_kr.Execution.Claim.{claim, Session, transport_fact}
use cherry_pulse_kr.Execution.Dispatcher.{
  Dispatcher, Action, return, run, record_call, after_claim, send, owned_by_process, ◌>>=◌,
}

module _ {A : Type 0} where
  pub run-ok :
      (m : Method A) (d : Dispatcher) {a : A} {s : Store}
      → m d.store ≡ ok (a, s)
      → run m d ≡ (ok a, record d { store = s })
  run-ok m d h = rw (h, run) refl

  pub run-err :
      (m : Method A) (d : Dispatcher) {e : LedgerError} → m d.store ≡ err e → run m d ≡ (err e, d)
  run-err m d h = rw (h, run) refl

module _ {A B : Type 0} where
  bind-ok :
      (m : Action A) (f : A → Action B) (d : Dispatcher) {a : A} {d' : Dispatcher}
      → m d ≡ (ok a, d')
      → (m >>= f) d ≡ f a d'
  bind-ok m f d h =
      ap (λ (p : Raises A × Dispatcher). elim p.0 [ ok a ↦ f a p.1 | err e ↦ (err e, p.1) ]) h

  bind-err :
      (m : Action A) (f : A → Action B) (d : Dispatcher) {e : LedgerError} {d' : Dispatcher}
      → m d ≡ (err e, d')
      → (m >>= f) d ≡ (err e, d')
  bind-err m f d h =
      ap (λ (p : Raises A × Dispatcher). elim p.0 [ ok a ↦ f a p.1 | err e ↦ (err e, p.1) ]) h

module _ (ext : External) where
  pub send-unowned :
      (id : Uuid) (session : Option Session) (now : Datetime) (a b : Uuid) (d : Dispatcher)
      {e : LedgerError}
      → operation d.store.lease d.store.process ≡ err e
      → send ext id session now a b d ≡ (err e, d)
  unfolding send
  send-unowned id session now a b d h =
      bind-err owned_by_process (λ u. run (claim ext id session now a) >>= after_claim ext b) d
        (ap (λ r. (r, d)) h)

  send-owned :
      (id : Uuid) (session : Option Session) (now : Datetime) (a b : Uuid) (d : Dispatcher)
      → operation d.store.lease d.store.process ≡ ok tt
      → send ext id session now a b d ≡ (run (claim ext id session now a) >>= after_claim ext b) d
  unfolding send
  send-owned id session now a b d h =
      bind-ok owned_by_process (λ u. run (claim ext id session now a) >>= after_claim ext b) d
        (ap (λ r. (r, d)) h)

  pub send-failed :
      (id : Uuid) (session : Option Session) (now : Datetime) (a b : Uuid) (d : Dispatcher)
      {e : LedgerError}
      → operation d.store.lease d.store.process ≡ ok tt
      → claim ext id session now a d.store ≡ err e
      → send ext id session now a b d ≡ (err e, d)
  send-failed id session now a b d own h =
      send-owned id session now a b d own
      ∙ bind-err (run (claim ext id session now a)) (after_claim ext b) d
          (run-err (claim ext id session now a) d h)

  -- A `send` in an owned session whose claim returns goes on with what follows the claim.
  pub send-claimed :
      (id : Uuid) (session : Option Session) (now : Datetime) (a b : Uuid) (d : Dispatcher)
      {x : Option Request} {s : Store}
      → operation d.store.lease d.store.process ≡ ok tt
      → claim ext id session now a d.store ≡ ok (x, s)
      → send ext id session now a b d ≡ after_claim ext b x (record d { store = s })
  send-claimed id session now a b d own h =
      send-owned id session now a b d own
      ∙ bind-ok (run (claim ext id session now a)) (after_claim ext b) d
          (run-ok (claim ext id session now a) d h)

  -- Whatever the second transaction does, the call stays recorded and the store is what that
  -- transaction left, or the one that it began with.
  pub after_claim-ok :
      (b : Uuid) (y : Request) (d : Dispatcher) {x : Bool} {s : Store}
      → ingest ext (transport_fact b y.request_id TransportState.sent) d.store ≡ ok (x, s)
      → after_claim ext b (some y) d ≡ (ok true, record (record_call y d).1 { store = s })
  unfolding after_claim
  after_claim-ok b y d h =
      bind-ok (run (ingest ext (transport_fact b y.request_id TransportState.sent)))
        (λ u. return true) (record_call y d).1
        (run-ok (ingest ext (transport_fact b y.request_id TransportState.sent)) (record_call y d).1
          h)

  pub after_claim-err :
      (b : Uuid) (y : Request) (d : Dispatcher) {e : LedgerError}
      → ingest ext (transport_fact b y.request_id TransportState.sent) d.store ≡ err e
      → after_claim ext b (some y) d ≡ (err e, (record_call y d).1)
  unfolding after_claim
  after_claim-err b y d h =
      bind-err (run (ingest ext (transport_fact b y.request_id TransportState.sent)))
        (λ u. return true) (record_call y d).1
        (run-err (ingest ext (transport_fact b y.request_id TransportState.sent))
          (record_call y d).1 h)
