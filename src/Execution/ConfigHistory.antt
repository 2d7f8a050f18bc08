-- ===== src/Execution/ConfigHistory.antt =====
-- execution/config_apply.py and contracts/inbox.py: histories of the inbox, the ledger and the coordinator.
use cherry_pulse_kr.Execution.InboxApplied.{IsRecorded}
use cherry_pulse_kr.Contracts.Sound.{accepted_row-eq_ok}
use cherry_pulse_kr.Contracts.Moves.{All-find?}
use cherry_pulse_kr.Prelude.{
  ℕ, ◌≡◌, inl, inr, Bool, Option, List, [], ◌∷◌, arith, nat_eq, string_eq, ok, Result-cases,
}
use cherry_pulse_kr.Execution.Models.{
  Uuid, Key, Environment, Datetime, side_eq, environment_eq, AppliedConfig,
}
use cherry_pulse_kr.Execution.External.{External}
use cherry_pulse_kr.Execution.History.{journal_of}
use cherry_pulse_kr.Execution.Calls.{Operation, run_all, run_all-Grown}
use cherry_pulse_kr.Execution.InboxConfig.{binding_of}
use cherry_pulse_kr.Execution.ConfigApply.{Stores, on_inbox, apply, resume_applying, resume_pending}
use cherry_pulse_kr.Execution.ConfigBacked.{
  RowBacked, WorldSound, ledger-WorldSound, receive-WorldSound,
}
use cherry_pulse_kr.Contracts.Settings.{ConfigCommand, Actor}
use cherry_pulse_kr.Contracts.Inbox.{InboxApplication, receive, has_id, ApplyState}
use cherry_pulse_kr.Contracts.Application.{
  application_of, accepted_row, applying_command_ids, application,
}
use cherry_pulse_kr.Execution.ConfigKept.{
  on_inbox-Sound, apply-Sound, apply_each-Sound, resume_pending-Sound,
}

-- What the inbox, the coordinator and the ledger do, one call after the other.
pub data ConfigStep (Context : Type 0) : Type 0 where
  receives : ConfigCommand → Datetime → Option Context → ConfigStep Context
  applies : Uuid → Bool → ConfigStep Context
  resumes_applying resumes_pending : ConfigStep Context
  operates : Operation → ConfigStep Context

module _ (ext : External) (digest : ConfigCommand → ℕ) (account_of : Uuid → Key × Environment)
    {Context : Type 0} (authenticator : Option (ConfigCommand → Context → Option Actor)) where
  unfoldable pub config_step : ConfigStep Context → Stores → Stores
  config_step (ConfigStep.receives c now context) w =
      (on_inbox (receive digest authenticator c now context) w).1
  config_step (ConfigStep.applies id retry) w = (apply ext digest id retry w).1
  config_step ConfigStep.resumes_applying w = (resume_applying ext digest w).1
  config_step ConfigStep.resumes_pending w = (resume_pending ext digest w).1
  config_step (ConfigStep.operates op) w = record w { ledger = run_all ext (op ∷ []) w.ledger }

  unfoldable pub config_steps : List (ConfigStep Context) → Stores → Stores
  unfolding config_step
  config_steps [] w = w
  config_steps (k ∷ ks) w = config_steps ks (config_step k w)

  abbrev pub StepOwned : ConfigStep Context → Type 0
  StepOwned (ConfigStep.receives c now context) =
      account_of c.command_id ≡ (c.settings.account_id, c.settings.environment)
  StepOwned _ = Unit

  abbrev pub StepsOwned : List (ConfigStep Context) → Type 0
  StepsOwned [] = Unit
  StepsOwned (k ∷ ks) = StepOwned k × StepsOwned ks

  config_step-Sound :
      (k : ConfigStep Context) (w : Stores)
      → StepOwned k
      → WorldSound digest account_of w
      → WorldSound digest account_of (config_step k w)
  unfolding config_step resume_applying
  config_step-Sound (ConfigStep.receives c now context) w o s =
      on_inbox-Sound ext digest account_of (receive digest authenticator c now context) w s
        (λ d rows p. receive-WorldSound digest account_of authenticator c now context w o s p)
  config_step-Sound (ConfigStep.applies id retry) w o s =
      apply-Sound ext digest account_of id retry w s
  config_step-Sound ConfigStep.resumes_applying w o s =
      apply_each-Sound ext digest account_of (applying_command_ids w.inbox) w s
  config_step-Sound ConfigStep.resumes_pending w o s =
      resume_pending-Sound ext digest account_of w s
  config_step-Sound (ConfigStep.operates op) w o s =
      ledger-WorldSound digest account_of w _ (run_all-Grown ext (op ∷ []) w.ledger) s

  pub config_steps-Sound :
      (ks : List (ConfigStep Context)) (w : Stores)
      → StepsOwned ks
      → WorldSound digest account_of w
      → WorldSound digest account_of (config_steps ks w)
  unfolding config_steps
  config_steps-Sound [] w o s = s
  config_steps-Sound (k ∷ ks) w (o, os) s =
      config_steps-Sound ks (config_step k w) os (config_step-Sound k w o s)

  -- Whatever commands the inbox receives, and whatever applications, resumptions and
  -- transactions of the ledger follow each other in any order, each of them failing or not: when
  -- the inbox calls a command applied, the journal of the ledger has the configuration of this
  -- command, with its digest and version, and the stop binding of its settings. Each command
  -- identity is used in one account only, and it holds of the stores at the start.
  pub applied-IsRecorded :
      (ks : List (ConfigStep Context)) (w : Stores) (id : Uuid) {a : InboxApplication}
      → StepsOwned ks
      → WorldSound digest account_of w
      → application id (config_steps ks w).inbox ≡ ok a
      → a.state ≡ ApplyState.applied
      → (c : AppliedConfig) × IsRecorded
          (journal_of (config_steps ks w).ledger)
          a.command
          a.digest
          (binding_of a.command.settings)
          c
  unfolding application
  applied-IsRecorded ks w id {a} o s h done =
      elim (Result-cases (accepted_row id (config_steps ks w).inbox)) [
        | inr (e, p) ↦ absurd (ground (arith, rw (application, p) at h))
        | inl (r, p) ↦
            let a_r : application_of r ≡ a = ground (arith, rw (application, p) at h) in
            let backed =
              All-find? (RowBacked (journal_of (config_steps ks w).ledger)) (has_id id)
                (config_steps ks w).inbox (config_steps-Sound ks w o s).backed
                (accepted_row-eq_ok id (config_steps ks w).inbox p).0 in
            rw (← a_r) (backed (rw (← a_r) at done))
      ]
