-- ===== src/Execution/Calls.antt =====
-- Sequences of transactions: the writing methods of execution/ledger.py but the evaluation of a
-- quote, which also replaces a cursor, that of execution/quarantine.py, the claim of
-- `VirtualDispatcher.send` and its `recover` (execution/virtual.py).
use cherry_pulse_kr.Execution.InboxOnce.{apply_inbox_config-Grows}
use cherry_pulse_kr.Execution.StopLatches.{latch_virtual_price_stop, latch_virtual_cost_stop}
use cherry_pulse_kr.Execution.LatchGrows.{
  latch_virtual_price_stop-Grows, latch_virtual_cost_stop-Grows,
}
use cherry_pulse_kr.Contracts.StopEvaluation.{Quote, ObserveAt}
use cherry_pulse_kr.Execution.InboxConfig.{apply_inbox_config}
use cherry_pulse_kr.Contracts.Settings.{ConfigCommand}
use cherry_pulse_kr.Execution.Recovery.{recovery}
use cherry_pulse_kr.Execution.Claim.{claim, Session}
use cherry_pulse_kr.Prelude.{
  ℕ, inl, inr, List, [], ◌∷◌, nat_eq, string_eq, ok, err, Result-cases, Option,
}
use cherry_pulse_kr.Execution.Models.{
  Uuid, Key, Datetime, side_eq, environment_eq, OrderCommand, VirtualStopBinding, Allocation,
  Control,
}
use cherry_pulse_kr.Execution.Facts.{Fact}
use cherry_pulse_kr.Execution.Transaction.{Store, Method, pure, ◌>>=◌}
use cherry_pulse_kr.Execution.Submit.{submit}
use cherry_pulse_kr.Execution.Ingest.{ingest, discard}
use cherry_pulse_kr.Execution.Configure.{allocate, control, apply_config, apply_virtual_stop_config}
use cherry_pulse_kr.Execution.Quarantine.{reprocess}
use cherry_pulse_kr.Execution.External.{External}
use cherry_pulse_kr.Execution.History.{
  Grown, Grown-refl, Grown-trans, Grows, Grows-pure, Grows-bind, grow_rules,
}
use cherry_pulse_kr.Execution.AppendOnly.{
  submit-Grows, ingest-Grows, discard-Grows, reprocess-Grows, advance_config-Grows,
  start_allocation-Grows, claim-Grows, recovery-Grows,
}

-- A call of one of the writing methods, with what the clock and `uuid4` give it.
pub data Operation : Type 0 where
  submit_command : OrderCommand → Datetime → (order_id request_id : Uuid) → Operation
  ingest_fact : Fact → Operation
  discard_request : Uuid → Key → ℕ → Operation
  allocate_holding : Allocation → Operation
  set_control : Control → Uuid → Operation
  apply_version : Key → (expected_version version : ℕ) → Uuid → Operation
  apply_binding : VirtualStopBinding → ℕ → Uuid → Operation
  reprocess_fill : Uuid → Key → ℕ → Operation
  claim_intention : Uuid → Option Session → Datetime → Uuid → Operation
  recover_intentions : (ℕ → Uuid) → Operation
  apply_inbox : ConfigCommand → ℕ → Operation
  latch_price_stop : Key → Option Quote → ObserveAt → Operation
  latch_cost_stop : Key → Option Quote → ObserveAt → Operation

abbrev void : {A : Type 0} → Method A → Method (Unit {0})
void m = m >>= λ _. pure tt

module _ (ext : External) where
  unfoldable pub perform : Operation → Method (Unit {0})
  perform (Operation.submit_command c now o r) = void (submit ext c now o r)
  perform (Operation.ingest_fact f) = void (ingest ext f)
  perform (Operation.discard_request r k n) = void (discard ext r k n)
  perform (Operation.allocate_holding a) = allocate a
  perform (Operation.set_control c fresh) = control ext c fresh
  perform (Operation.apply_version symbol m n fresh) = apply_config ext symbol m n fresh
  perform (Operation.apply_binding b n fresh) = apply_virtual_stop_config ext b n fresh
  perform (Operation.reprocess_fill q k n) = void (reprocess ext q k n)
  perform (Operation.claim_intention r session now fresh) = void (claim ext r session now fresh)
  perform (Operation.recover_intentions fresh) = void (recovery ext fresh)
  perform (Operation.apply_inbox c n) = void (apply_inbox_config ext ext.config_digest c n)
  perform (Operation.latch_price_stop symbol q t) = void (latch_virtual_price_stop symbol q t)
  perform (Operation.latch_cost_stop symbol q t) = void (latch_virtual_cost_stop symbol q t)

  -- the caller catches what a method raises, and goes on with the store that was rolled back
  unfoldable pub attempt : Operation → Store → Store
  unfolding perform
  attempt op s = elim (perform op s) [ ok p ↦ p.1 | err e ↦ s ]

  unfoldable pub run_all : List Operation → Store → Store
  unfolding attempt
  run_all [] s = s
  run_all (op ∷ ops) s = run_all ops (attempt op s)

  perform-Grows : (op : Operation) → Grows (perform op)
  unfolding perform
  perform-Grows (Operation.submit_command c now o r) =
      Grows-bind _ _ (submit-Grows ext c now o r) (λ a. Grows-pure tt)
  perform-Grows (Operation.ingest_fact f) = Grows-bind _ _ (ingest-Grows ext f) (λ a. Grows-pure tt)
  perform-Grows (Operation.discard_request r k n) =
      Grows-bind _ _ (discard-Grows ext r k n) (λ a. Grows-pure tt)
  perform-Grows (Operation.allocate_holding a) =
      unfold allocate in search (grow_rules, start_allocation-Grows)
  perform-Grows (Operation.set_control c fresh) = unfold control in search grow_rules
  perform-Grows (Operation.apply_version symbol m n fresh) =
      unfold apply_config in search (grow_rules, advance_config-Grows ext)
  perform-Grows (Operation.apply_binding b n fresh) =
      unfold apply_virtual_stop_config in search (grow_rules, advance_config-Grows ext)
  perform-Grows (Operation.reprocess_fill q k n) =
      Grows-bind _ _ (reprocess-Grows ext q k n) (λ a. Grows-pure tt)
  perform-Grows (Operation.claim_intention r session now fresh) =
      Grows-bind _ _ (claim-Grows ext r session now fresh) (λ a. Grows-pure tt)
  perform-Grows (Operation.recover_intentions fresh) =
      Grows-bind _ _ (recovery-Grows ext fresh) (λ a. Grows-pure tt)
  perform-Grows (Operation.apply_inbox c n) =
      Grows-bind _ _ (apply_inbox_config-Grows ext ext.config_digest c n) (λ a. Grows-pure tt)
  perform-Grows (Operation.latch_price_stop symbol q t) =
      Grows-bind _ _ (latch_virtual_price_stop-Grows symbol q t) (λ a. Grows-pure tt)
  perform-Grows (Operation.latch_cost_stop symbol q t) =
      Grows-bind _ _ (latch_virtual_cost_stop-Grows symbol q t) (λ a. Grows-pure tt)

  attempt-Grown : (op : Operation) (s : Store) → Grown s (attempt op s)
  unfolding attempt
  attempt-Grown op s = elim (Result-cases (perform op s)) [
    | inl ((u, s'), p) ↦ rw (p, attempt) ((perform-Grows op).at s p)
    | inr (e, p) ↦ rw (p, attempt) (Grown-refl s)
  ]

  -- Whatever transactions of Calls.Operation are run one after the other, and whichever of them
  -- fail, the journal of the scope is what it was with entries added behind; the lease is
  -- untouched, the snapshots of other scopes are the same, and a consistent database (an outbox
  -- that repeats the journal in order, no key twice) stays so.
  pub run_all-Grown : (ops : List Operation) (s : Store) → Grown s (run_all ops s)
  unfolding run_all
  run_all-Grown [] s = Grown-refl s
  run_all-Grown (op ∷ ops) s = Grown-trans (attempt-Grown op s) (run_all-Grown ops (attempt op s))
