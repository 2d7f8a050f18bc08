-- ===== src/Contracts/Inbox.antt =====
-- contracts/inbox.py: the table of desired settings. Rows stand in the order of their rowid, and a
-- payload is the command that its JSON text stands for. A call commits or raises and changes nothing.
use cherry_pulse_kr.Prelude.{
  ℕ, max, Bool, true, false, not, ◌&&◌, ◌||◌, Option, none, some, List, [], ◌∷◌, ◌++◌,
  if◌then◌else◌, ◌==◌, nat_eq, string_eq, decided, any, keep, pick, Result, ok, err, require,
}
use cherry_pulse_kr.Execution.Models.{Uuid, Key, Datetime, Environment, environment_eq, LedgerError}
use cherry_pulse_kr.Contracts.Settings.{
  Settings, Actor, ConfigCommand, ConfigDecision, DecisionReason, DecisionState, is_valid_command,
  is_authorized, outcome_for, decide, ConfigCommand-discrete,
}

pub data ApplyState : Type 0 where
  not_applied applying applied apply_blocked : ApplyState

-- `apply_reason`: the code of an error, or what the upgrade of an old table wrote.
pub data ApplyReason : Type 0 where
  legacy_authentication_unverified : ApplyReason
  code : LedgerError → ApplyReason

-- The codes of `CommandConflictError` and of `ConfigInboxError`, with what sqlite3 and pydantic raise.
pub data InboxError : Type 0 where
  conflict_config_command_identity conflict_config_applied_version : InboxError
  config_command_not_found config_command_not_accepted : InboxError
  config_already_applied config_apply_not_in_progress : InboxError
  integrity_error validation_error : InboxError

pub record InboxApplication : Type 0 where
  pub command : ConfigCommand
  pub digest : ℕ
  pub state : ApplyState
  pub reason : Option ApplyReason
  pub applied_version : Option ℕ

-- A row of `config_commands`.
pub record ConfigRow : Type 0 where
  pub account_id : Key
  pub environment : Environment
  pub symbol : Key
  pub idempotency_key : Key
  pub command_id : Uuid
  pub payload : ConfigCommand
  pub digest : ℕ
  pub decision : DecisionState
  pub reason : DecisionReason
  pub accepted_version : Option ℕ
  pub actor_id : Key
  pub apply_state : ApplyState
  pub apply_reason : Option ApplyReason
  pub applied_version : Option ℕ

unfoldable pub ApplyReason-discrete : Discrete ApplyReason
ApplyReason-discrete = hlevel

abbrev pub same_reason : ApplyReason → Option ApplyReason → Bool
same_reason a none = false
same_reason a (some b) = decided (ApplyReason-discrete b a)

abbrev pub row_accepted : ConfigRow → Bool
row_accepted r = elim r.decision [ DecisionState.accepted ↦ true | DecisionState.rejected ↦ false ]

abbrev pub has_id : Uuid → ConfigRow → Bool
has_id id r = r.command_id == id

-- `account_id=? AND environment=?`
abbrev pub in_account : Key → Environment → ConfigRow → Bool
in_account account environment r = r.account_id == account && r.environment == environment

abbrev pub same_number : Option ℕ → Option ℕ → Bool
same_number (some a) (some b) = a == b
same_number _ _ = false

-- The primary key, `UNIQUE(account_id, environment, command_id)` and the index `one_accepted_version`.
abbrev pub row_clashes : ConfigRow → ConfigRow → Bool
row_clashes new r =
    in_account new.account_id new.environment r
    && (r.symbol == new.symbol && r.idempotency_key == new.idempotency_key
        || r.command_id == new.command_id
        || r.symbol == new.symbol && same_number r.accepted_version new.accepted_version)

abbrev pub InboxMethod : Type 0 → Type 0
InboxMethod A = List ConfigRow → Result InboxError (A × List ConfigRow)

unfoldable pub insert_row : ConfigRow → List ConfigRow → Result InboxError (List ConfigRow)
insert_row new rows =
    if any (row_clashes new) rows then err InboxError.integrity_error else ok (rows ++ new ∷ [])

-- the rows that the first query of `receive` selects
abbrev pub is_prior : ConfigCommand → ConfigRow → Bool
is_prior c r =
    in_account c.settings.account_id c.settings.environment r
    && (r.symbol == c.settings.symbol && r.idempotency_key == c.idempotency_key
        || r.command_id == c.command_id)

abbrev pub is_same_command : ConfigCommand → ConfigRow → Bool
is_same_command c r =
    r.symbol == c.settings.symbol
    && r.idempotency_key == c.idempotency_key
    && r.command_id == c.command_id
    && decided (ConfigCommand-discrete r.payload c)

-- the versions that `MAX(accepted_version)` runs over
abbrev pub scope_version : Settings → ConfigRow → Option ℕ
scope_version s r =
    if in_account s.account_id s.environment r && r.symbol == s.symbol
    then r.accepted_version
    else none

abbrev pub max_of : List ℕ → ℕ
max_of [] = 0
max_of (n ∷ ns) = max n (max_of ns)

-- zero where there is none
unfoldable pub current_version : Settings → List ConfigRow → ℕ
current_version s rows = max_of (pick (scope_version s) rows)

abbrev pub version_if : DecisionState → ℕ → Option ℕ
version_if DecisionState.accepted n = some n
version_if DecisionState.rejected n = none

-- the row that `receive` inserts
abbrev pub new_row : ConfigCommand → ℕ → Actor → ConfigDecision → ConfigRow
new_row c fingerprint actor d = record {
  account_id = c.settings.account_id;
  environment = c.settings.environment;
  symbol = c.settings.symbol;
  idempotency_key = c.idempotency_key;
  command_id = c.command_id;
  payload = c;
  digest = fingerprint;
  decision = d.state;
  reason = d.reason;
  accepted_version = version_if d.state c.settings.version;
  actor_id = actor.actor_id;
  apply_state = ApplyState.not_applied;
  apply_reason = none;
  applied_version = none;
}

abbrev pub recorded_decision : ConfigRow → ConfigDecision
recorded_decision r = record { state = r.decision; reason = r.reason; digest = r.digest }

-- the reply to a command that was received before
abbrev pub replay_decision : ConfigCommand → List ConfigRow → Result InboxError ConfigDecision
replay_decision c (r ∷ []) =
    if is_same_command c r
    then ok (recorded_decision r)
    else err InboxError.conflict_config_command_identity
replay_decision c _ = err InboxError.conflict_config_command_identity

module _ (digest : ConfigCommand → ℕ) where
  abbrev pub outcome_of : ConfigCommand → Actor → Datetime → List ConfigRow → ConfigDecision
  outcome_of c actor now rows = decide digest c actor (current_version c.settings rows) now

  -- the part of `receive` for a command that is new
  unfoldable pub record_decision : ConfigCommand → Actor → Datetime → InboxMethod ConfigDecision
  unfolding insert_row decide current_version
  record_decision c actor now rows =
      elim (insert_row (new_row c (digest c) actor (outcome_of c actor now rows)) rows) [
        | ok rows' ↦ ok (outcome_of c actor now rows, rows')
        | err e ↦ err e
      ]

  abbrev pub replay_or_record :
      ConfigCommand → Actor → Datetime → List ConfigRow → InboxMethod ConfigDecision
  replay_or_record c actor now [] rows = record_decision c actor now rows
  replay_or_record c actor now (r ∷ rs) rows = elim (replay_decision c (r ∷ rs)) [
    | ok d ↦ ok (d, rows)
    | err e ↦ err e
  ]

  -- the transaction of `receive`
  unfoldable pub receive_from : ConfigCommand → Actor → Datetime → InboxMethod ConfigDecision
  unfolding record_decision
  receive_from c actor now rows =
      if not (is_authorized actor c.settings)
      then ok (outcome_for digest c DecisionReason.config_unauthorized, rows)
      else replay_or_record c actor now (keep (is_prior c) rows) rows

  -- The authenticator of a deployment, and the context that a sender hands over.
  module _ {Context : Type 0}
      (authenticator : Option (ConfigCommand → Context → Option Actor)) where
    -- the sender, or why there is none
    abbrev pub sender : ConfigCommand → Option Context → Result DecisionReason Actor
    sender c context = elim authenticator [
      | none ↦ err DecisionReason.config_authentication_unavailable
      | some authenticate ↦ elim context [
        | none ↦ err DecisionReason.config_authentication_evidence_required
        | some x ↦ require (authenticate c x) DecisionReason.config_authentication_failed
      ]
    ]

    unfoldable pub receive : ConfigCommand → Datetime → Option Context → InboxMethod ConfigDecision
    unfolding receive_from is_valid_command
    receive c now context rows =
        if is_valid_command c
        then elim (sender c context) [
          | ok actor ↦ receive_from c actor now rows
          | err reason ↦ ok (outcome_for digest c reason, rows)
        ]
        else err InboxError.validation_error
