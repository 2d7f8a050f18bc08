-- ===== src/Execution/ConfigTests.antt =====
-- Runs of `apply_inbox_config` and of the coordinator of execution/config_apply.py.
use cherry_pulse_kr.Contracts.Moves.{Startable}
use cherry_pulse_kr.Execution.Price.{is_positive}
use cherry_pulse_kr.Prelude.{
  ℕ, ◌<◌, ◌≡◌, refl, ◌⊎◌, true, false, none, some, List, [], ◌∷◌, nat_eq, string_eq, ok,
}
use cherry_pulse_kr.Execution.Models.{Datetime, side_eq, environment_eq, AppliedConfig}
use cherry_pulse_kr.Execution.Freshness.{applied_version}
use cherry_pulse_kr.Execution.Lease.{lease_ready, acquired}
use cherry_pulse_kr.Execution.Storage.{Payload, Scope-discrete, EntryKind-discrete}
use cherry_pulse_kr.Execution.Transaction.{
  Store, transaction, read_journal, ensure_ready, append_entry,
}
use cherry_pulse_kr.Execution.History.{journal_of}
use cherry_pulse_kr.Execution.Calls.{Operation, run_all}
use cherry_pulse_kr.Execution.Configure.{control}
use cherry_pulse_kr.Execution.InboxConfig.{binding_of, config_of, inbox_config, apply_inbox_config}
use cherry_pulse_kr.Execution.InboxApplied.{IsRecorded}
use cherry_pulse_kr.Execution.InboxLedger.{
  with_config, apply_inbox_config-records, apply_inbox_config_again, IsExpected,
}
use cherry_pulse_kr.Execution.ConfigApply.{Stores, apply, resume_pending}
use cherry_pulse_kr.Execution.ConfigResumed.{Pending, done, apply_completes, apply_resumes}
use cherry_pulse_kr.Execution.ConfigBacked.{WorldSound}
use cherry_pulse_kr.Execution.ConfigHistory.{ConfigStep, config_steps, applied-IsRecorded}
use cherry_pulse_kr.Execution.Fixtures.{ext, store, with_entry}
use cherry_pulse_kr.Contracts.Inbox.{ApplyState, ConfigRow, InboxApplication, new_row, receive}
use cherry_pulse_kr.Contracts.Application.{application, accepted_row, set_applied, set_state}
use cherry_pulse_kr.Contracts.Fixtures.{
  digest_of, operator, trusted, owner_of, first, one_row, accepted_first,
}

abbrev first_row : ConfigRow
first_row = new_row first 21002 operator accepted_first

abbrev applied_first : AppliedConfig
applied_first = inbox_config first 21002

-- the ledger once the first command is applied
abbrev configured_store : Store
configured_store =
    with_entry "000660:ii." (Payload.stop_binding (binding_of first.settings))
      (with_entry (ext.uuid_text 21) (Payload.config applied_first) store)

apply_inbox_config-first :
    apply_inbox_config ext digest_of first 21002 store ≡ ok (applied_first, configured_store)
unfolding apply_inbox_config is_positive acquired transaction ensure_ready read_journal
    Scope-discrete append_entry EntryKind-discrete
apply_inbox_config-first = refl

apply_inbox_config-records_example :
    IsRecorded (journal_of configured_store) first 21002 (binding_of first.settings) applied_first
    × ((configured_store ≡ store)
        ⊎ ((config_of 21 (journal_of store) ≡ none)
            × IsExpected (journal_of store) "000660" 0
            × (0 < 2)
            × (journal_of configured_store ≡ with_config (journal_of store) first 21002)
            × (applied_version (journal_of configured_store) "000660" ≡ 2)))
apply_inbox_config-records_example =
    apply_inbox_config-records ext digest_of first 21002 store apply_inbox_config-first

abbrev between : List Operation
between =
    Operation.set_control (record { symbol = "000660"; entry_stopped = true; liquidating = false })
      31
    ∷ Operation.apply_version "000660" 2 5 32
    ∷ []

apply_inbox_config_again_example :
    apply_inbox_config ext digest_of first 21002 (run_all ext between configured_store)
    ≡ ok (applied_first, run_all ext between configured_store)
apply_inbox_config_again_example =
    apply_inbox_config_again ext digest_of first 21002 store between apply_inbox_config-first

abbrev stores : Stores
stores = record { inbox = one_row; ledger = store }

abbrev begun_row : ConfigRow
begun_row = set_state ApplyState.applying none first_row

abbrev begun_stores : Stores
begun_stores = record { inbox = begun_row ∷ []; ledger = store }

store_ready : lease_ready store.lease store.process ≡ true
unfolding lease_ready acquired
store_ready = refl

found_first : accepted_row 21 one_row ≡ ok first_row
unfolding accepted_row
found_first = refl

found_begun : accepted_row 21 (begun_row ∷ []) ≡ ok begun_row
unfolding accepted_row
found_begun = refl

apply_completes_example :
    (v : Stores) × (apply ext digest_of 21 false stores ≡ (ok (done ext digest_of first_row), v))
    × (v.ledger ≡ configured_store)
    × (accepted_row 21 v.inbox ≡ ok (set_applied 2 first_row))
unfolding acquired
apply_completes_example =
    apply_completes ext digest_of 21 false stores first_row store_ready found_first
      (Pending.begins (Startable.unapplied refl)) refl apply_inbox_config-first

apply_resumes_example :
    (v : Stores) × (apply ext digest_of 21 false
        (record begun_stores { ledger = run_all ext between configured_store })
      ≡ (ok (done ext digest_of begun_row), v))
    × (v.ledger ≡ run_all ext between configured_store)
    × (accepted_row 21 v.inbox ≡ ok (set_applied 2 begun_row))
unfolding acquired
apply_resumes_example =
    apply_resumes ext digest_of 21 begun_stores begun_row between store_ready found_begun refl refl
      apply_inbox_config-first

abbrev steps : List (ConfigStep ℕ)
steps =
    ConfigStep.receives first (Datetime.aware 5) (some 1)
    ∷ ConfigStep.operates (
        Operation.set_control
          (record { symbol = "000660"; entry_stopped = true; liquidating = false }) 31)
    ∷ ConfigStep.resumes_pending
    ∷ []

abbrev opening : Stores
opening = record { inbox = []; ledger = store }

opening-WorldSound : WorldSound digest_of owner_of opening
opening-WorldSound = record { sound = record { each = tt; separate = tt }; backed = tt }

abbrev applied_application : InboxApplication
applied_application = record {
  command = first;
  digest = 21002;
  state = ApplyState.applied;
  reason = none;
  applied_version = some 2;
}

application-steps :
    application 21 (config_steps ext digest_of owner_of trusted steps opening).inbox
    ≡ ok applied_application
unfolding application config_steps resume_pending run_all control transaction receive is_positive
    acquired ensure_ready append_entry Scope-discrete EntryKind-discrete apply_inbox_config
    read_journal
application-steps = refl

applied-IsRecorded_example :
    (c : AppliedConfig) × IsRecorded
      (journal_of (config_steps ext digest_of owner_of trusted steps opening).ledger)
      first
      21002
      (binding_of first.settings)
      c
applied-IsRecorded_example =
    applied-IsRecorded ext digest_of owner_of trusted steps opening 21 (refl, (tt, (tt, tt)))
      opening-WorldSound application-steps refl
