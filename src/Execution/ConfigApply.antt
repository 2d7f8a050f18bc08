-- ===== src/Execution/ConfigApply.antt =====
-- execution/config_apply.py: the bridge from the inbox to the ledger. The two databases commit
-- separately, so a step that raises leaves what the steps before it committed.
use cherry_pulse_kr.Prelude.{
  ℕ, Bool, true, false, not, ◌&&◌, Option, List, [], ◌∷◌, if◌then◌else◌, ◌==◌, nat_eq, string_eq,
  Result, ok, err,
}
use cherry_pulse_kr.Execution.Models.{Uuid, LedgerError, side_eq, environment_eq, Scope}
use cherry_pulse_kr.Execution.Lease.{lease_ready}
use cherry_pulse_kr.Execution.External.{External}
use cherry_pulse_kr.Execution.Transaction.{Store}
use cherry_pulse_kr.Execution.InboxConfig.{apply_inbox_config}
use cherry_pulse_kr.Contracts.Settings.{Settings, ConfigCommand}
use cherry_pulse_kr.Contracts.Inbox.{
  ApplyState, ApplyReason, InboxError, InboxApplication, ConfigRow, InboxMethod,
}
use cherry_pulse_kr.Contracts.Application.{
  begin_apply, block_apply, mark_applied, applying_command_ids, pending_application_ids,
}

-- The two databases of a `ConfigApplyCoordinator`.
pub record Stores : Type 0 where
  pub inbox : List ConfigRow
  pub ledger : Store

pub data ApplyError : Type 0 where
  ledger_error : LedgerError → ApplyError
  inbox_error : InboxError → ApplyError

pub record ConfigApplyResult : Type 0 where
  pub command_id : Uuid
  pub state : ApplyState
  pub reason : Option ApplyReason
  pub applied_version : Option ℕ

-- What a call returns or raises, and the databases after it.
abbrev pub Step : Type 0 → Type 0
Step A = Stores → Result ApplyError A × Stores

infixl 5 ◌then◌
abbrev pub ◌then◌ : {A B : Type 0} → Step A → (A → Step B) → Step B
◌then◌ m f w = elim (m w).0 [ ok a ↦ f a (m w).1 | err e ↦ (err e, (m w).1) ]

abbrev pub give : {A : Type 0} → A → Step A
give a w = (ok a, w)

-- a call of the inbox
abbrev pub on_inbox : {A : Type 0} → InboxMethod A → Step A
on_inbox m w = elim (m w.inbox) [
  | ok p ↦ (ok p.0, record w { inbox = p.1 })
  | err e ↦ (err (ApplyError.inbox_error e), w)
]

-- the errors that `except LedgerError` does not catch
abbrev pub is_foreign : LedgerError → Bool
is_foreign LedgerError.integrity_error = true
is_foreign LedgerError.stop_iteration = true
is_foreign LedgerError.validation_error = true
is_foreign _ = false

-- `_result`
abbrev pub result : InboxApplication → ConfigApplyResult
result a = record {
  command_id = a.command.command_id;
  state = a.state;
  reason = a.reason;
  applied_version = a.applied_version;
}

-- `_block`
abbrev pub block : InboxApplication → LedgerError → Step ConfigApplyResult
block a e =
    on_inbox (block_apply a.command.command_id (ApplyReason.code e)) then λ b. give (result b)

abbrev pub is_applying_state : ApplyState → Bool
is_applying_state ApplyState.applying = true
is_applying_state _ = false

abbrev pub in_scope : Settings → Scope → Bool
in_scope s scope = s.account_id == scope.account_id && s.environment == scope.environment

module _ (ext : External) (digest : ConfigCommand → ℕ) where
  -- the write to the ledger, and what its errors lead to
  unfoldable pub apply_ledger : Uuid → InboxApplication → Step ConfigApplyResult
  unfolding mark_applied block_apply
  apply_ledger id a w = elim (apply_inbox_config ext digest a.command a.digest w.ledger) [
    | ok p ↦
        (on_inbox (mark_applied id a.digest p.0.version) then λ b. give (result b))
          (record w { ledger = p.1 })
    | err e ↦ if is_foreign e then (err (ApplyError.ledger_error e), w) else block a e w
  ]

  abbrev pub apply_begun : Uuid → InboxApplication → Step ConfigApplyResult
  apply_begun id a w =
      if not (is_applying_state a.state)
      then (ok (result a), w)
      else if not (in_scope a.command.settings w.ledger.lease.scope)
      then block a LedgerError.config_execution_scope_mismatch w
      else apply_ledger id a w

  unfoldable pub apply : Uuid → Bool → Step ConfigApplyResult
  unfolding apply_ledger begin_apply lease_ready
  apply id retry_blocked w =
      if lease_ready w.ledger.lease w.ledger.process
      then (on_inbox (begin_apply id retry_blocked) then λ a. apply_begun id a) w
      else (err (ApplyError.ledger_error LedgerError.session_reconciliation_required), w)

  -- the loop over the listed commands, which the first error ends
  unfoldable pub apply_each : List Uuid → Step (List ConfigApplyResult)
  unfolding apply
  apply_each [] = give []
  apply_each (id ∷ ids) = apply id false then λ r. apply_each ids then λ rs. give (r ∷ rs)

  unfoldable pub resume_applying : Step (List ConfigApplyResult)
  unfolding apply_each applying_command_ids
  resume_applying w = apply_each (applying_command_ids w.inbox) w

  unfoldable pub resume_pending : Step (List ConfigApplyResult)
  unfolding apply_each pending_application_ids lease_ready
  resume_pending w =
      if lease_ready w.ledger.lease w.ledger.process
      then apply_each (pending_application_ids w.inbox) w
      else (err (ApplyError.ledger_error LedgerError.session_reconciliation_required), w)
