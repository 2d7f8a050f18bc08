-- ===== src/Execution/Dispatcher.antt =====
-- `VirtualDispatcher` of execution/virtual.py. Its methods run several transactions, so what was
-- committed or called before a raise remains: the state comes back beside the error too.
use cherry_pulse_kr.Execution.Recovery.{recovery}
use cherry_pulse_kr.Prelude.{
  ℕ, Bool, true, false, Option, none, some, List, [], ◌∷◌, ◌++◌, nat_eq, string_eq, ok, err,
}
use cherry_pulse_kr.Execution.Models.{Uuid, Datetime, Raises, side_eq, environment_eq, Request}
use cherry_pulse_kr.Execution.Facts.{TransportState, Fact}
use cherry_pulse_kr.Execution.External.{External}
use cherry_pulse_kr.Execution.Lease.{operation}
use cherry_pulse_kr.Execution.Transaction.{Store, Method}
use cherry_pulse_kr.Execution.Ingest.{ingest}
use Prim.Native.String.{◌++◌ as concat}
use cherry_pulse_kr.Execution.Claim.{Session, transport_fact, claim}
use cherry_pulse_kr.Execution.Lease.{operation}

-- The ledger's store, and the calls that were simulated.
pub record Dispatcher : Type 0 where
  pub store : Store
  pub calls : List Request

abbrev pub Action : Type 0 → Type 0
Action A = Dispatcher → Raises A × Dispatcher

abbrev pub return : {A : Type 0} → A → Action A
return a d = (ok a, d)

-- one transaction of the ledger
abbrev pub run : {A : Type 0} → Method A → Action A
run m d = elim (m d.store) [ ok p ↦ (ok p.0, record d { store = p.1 }) | err e ↦ (err e, d) ]

infixl 5 ◌>>=◌ ◌>>◌
abbrev pub ◌>>=◌ : {A B : Type 0} → Action A → (A → Action B) → Action B
◌>>=◌ m f d = let (r, d') = m d in elim r [ ok a ↦ f a d' | err e ↦ (err e, d') ]

abbrev pub ◌>>◌ : {A B : Type 0} → Action A → Action B → Action B
m >> k = m >>= λ _. k

-- `self.calls.append(request)`
abbrev pub record_call : Request → Action (Unit {0})
record_call r d = (ok tt, record d { calls = d.calls ++ r ∷ [] })

-- `with lease.operation()`
abbrev pub owned_by_process : Action (Unit {0})
owned_by_process d = (operation d.store.lease d.store.process, d)

module _ (ext : External) where
  -- what follows a successful claim
  unfoldable pub after_claim : Uuid → Option Request → Action Bool
  unfolding ingest
  after_claim fresh none = return false
  after_claim fresh (some r) = do
    record_call r
    run (ingest ext (transport_fact fresh r.request_id TransportState.sent))
    return true

  -- `send`, with the two identities that `uuid4` returns
  unfoldable pub send : Uuid → Option Session → Datetime → (first second : Uuid) → Action Bool
  unfolding claim after_claim operation
  send request_id session now first second = do
    owned_by_process
    claimed ← run (claim ext request_id session now first)
    after_claim second claimed

  abbrev pub ack_fact : Request → Uuid → Fact
  ack_fact r fresh = Fact.ack (record {
    event_id = fresh;
    request_id = r.request_id;
    broker_order_no = concat "virtual-" (ext.uuid_text r.request_id);
  })

  unfoldable pub acknowledge : Request → Uuid → Action Bool
  unfolding ingest
  acknowledge r fresh = run (ingest ext (ack_fact r fresh))

  -- `recover`
  unfoldable pub recover : (ℕ → Uuid) → Action (List Uuid)
  unfolding recovery
  recover fresh = run (recovery ext fresh)
