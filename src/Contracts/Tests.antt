-- ===== src/Contracts/Tests.antt =====
-- Runs of the inbox of contracts/inbox.py on a small deployment.
use cherry_pulse_kr.Contracts.Fixtures.{
  digest_of, command_of, operator, trusted, owner_of, first, second, accepted_first, one_row,
}
use cherry_pulse_kr.Execution.Price.{is_positive}
use cherry_pulse_kr.Prelude.{
  ℕ, ◌<◌, ◌≡◌, refl, ◌⊎◌, true, false, none, some, List, [], ◌∷◌, nat_eq, string_eq, any, ok, err,
}
use cherry_pulse_kr.Execution.Models.{Timestamp, Datetime, environment_eq, LedgerError}
use cherry_pulse_kr.Contracts.Settings.{
  Actor, ConfigCommand, DecisionReason, is_authorized, is_valid_command, outcome_for,
}
use cherry_pulse_kr.Contracts.Inbox.{
  ApplyState, ApplyReason, InboxError, InboxApplication, receive, new_row, current_version, sender,
  is_prior,
}
use cherry_pulse_kr.Contracts.Application.{application, block_apply, mark_applied, begin_apply}
use cherry_pulse_kr.Contracts.Sound.{IsSound, Progress}
use cherry_pulse_kr.Contracts.Table.{InboxCall, call_all, AllOwned, call_all-Progress}
use cherry_pulse_kr.Contracts.Lookup.{desired_data_kept}
use cherry_pulse_kr.Contracts.Accept.{receive-accepts, receive-raises}
use cherry_pulse_kr.Contracts.Replayed.{receive_again}

receive-first :
    receive digest_of trusted first (Datetime.aware 5) (some 1) [] ≡ ok (accepted_first, one_row)
unfolding receive is_positive
receive-first = refl

receive-late :
    receive digest_of trusted first (Datetime.aware 100) (some 1) []
    ≡ ok (
      outcome_for digest_of first DecisionReason.command_expired,
      new_row first 21002 operator (outcome_for digest_of first DecisionReason.command_expired)
          ∷ [],
    )
unfolding receive is_positive
receive-late = refl

receive-unknown :
    receive digest_of trusted first (Datetime.aware 5) (some 2) []
    ≡ ok (outcome_for digest_of first DecisionReason.config_authentication_failed, [])
unfolding receive is_positive
receive-unknown = refl

abbrev calls : List (InboxCall ℕ)
calls =
    InboxCall.begin_application 21 false
    ∷ InboxCall.receive_command second (Datetime.aware 6) (some 1)
    ∷ InboxCall.complete_application 21 21002 2
    ∷ InboxCall.block_application 21 (ApplyReason.code LedgerError.stale_config_version)
    ∷ []

call_all-calls :
    application 21 (call_all digest_of trusted calls one_row)
    ≡ ok (record {
      command = first;
      digest = 21002;
      state = ApplyState.applied;
      reason = none;
      applied_version = some 2;
    })
unfolding application call_all block_apply mark_applied receive is_positive begin_apply
call_all-calls = refl

calls-AllOwned : AllOwned digest_of trusted owner_of calls
calls-AllOwned = (tt, (refl, (tt, (tt, tt))))

empty-IsSound : IsSound digest_of owner_of []
empty-IsSound = record { each = tt; separate = tt }

abbrev all_calls : List (InboxCall ℕ)
all_calls = InboxCall.receive_command first (Datetime.aware 5) (some 1) ∷ calls

call_all-Progress_example : Progress digest_of owner_of [] (call_all digest_of trusted all_calls [])
call_all-Progress_example =
    call_all-Progress digest_of trusted owner_of all_calls [] (refl, calls-AllOwned) empty-IsSound

one_row-IsSound : IsSound digest_of owner_of one_row
one_row-IsSound = record {
  each = (
    record {
      account = refl;
      environment = refl;
      symbol = refl;
      key = refl;
      id = refl;
      fingerprint = refl;
      owner = refl;
      version = refl;
      unapplied = λ h. cc;
      applied = λ h. cc;
    },
    tt,
  );
  separate = (refl, tt);
}

application-one_row :
    application 21 one_row
    ≡ ok (record {
      command = first;
      digest = 21002;
      state = ApplyState.not_applied;
      reason = none;
      applied_version = none;
    })
unfolding application
application-one_row = refl

desired_data_kept_example :
    (b : InboxApplication) × (application 21 (call_all digest_of trusted calls one_row) ≡ ok b)
    × (b.command ≡ first)
    × (b.digest ≡ 21002)
    × (ApplyState.not_applied ≡ ApplyState.applied
        → b ≡ record {
          command = first;
          digest = 21002;
          state = ApplyState.not_applied;
          reason = none;
          applied_version = none;
        })
desired_data_kept_example =
    desired_data_kept digest_of trusted owner_of calls one_row 21 calls-AllOwned one_row-IsSound
      application-one_row

receive-accepts_example :
    (one_row ≡ [])
    ⊎ ((a : Actor) × (t : Timestamp) × (sender digest_of trusted first (some 1) ≡ ok a)
        × (is_authorized a first.settings ≡ true)
        × (Datetime.aware 5 ≡ Datetime.aware t)
        × (t < 100)
        × (current_version first.settings [] ≡ 0)
        × (0 < 2)
        × (one_row ≡ new_row first 21002 a accepted_first ∷ [])
        × (current_version first.settings one_row ≡ 2))
receive-accepts_example =
    receive-accepts digest_of trusted first (Datetime.aware 5) (some 1) [] receive-first refl

abbrev clashing : ConfigCommand
clashing = command_of 23 "k1" 2 3

receive-clashing :
    receive digest_of trusted clashing (Datetime.aware 7) (some 1) one_row
    ≡ err InboxError.conflict_config_command_identity
unfolding receive is_positive
receive-clashing = refl

clashing-valid : is_valid_command clashing ≡ true
unfolding is_valid_command is_positive
clashing-valid = refl

receive-raises_example :
    (InboxError.conflict_config_command_identity ≡ InboxError.conflict_config_command_identity)
    × (any (is_prior clashing) one_row ≡ true)
receive-raises_example =
    receive-raises digest_of trusted clashing (Datetime.aware 7) (some 1) one_row clashing-valid
      receive-clashing

receive_again_example :
    receive digest_of trusted first
      (Datetime.aware 200)
      (some 1)
      (call_all digest_of trusted calls one_row)
    ≡ ok (accepted_first, call_all digest_of trusted calls one_row)
receive_again_example =
    receive_again digest_of owner_of trusted first (Datetime.aware 5) (Datetime.aware 200) (some 1)
      (some 1) operator operator [] calls refl empty-IsSound calls-AllOwned refl refl refl refl
      receive-first
