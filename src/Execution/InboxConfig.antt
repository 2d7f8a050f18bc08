-- ===== src/Execution/InboxConfig.antt =====
-- `apply_inbox_config` of execution/ledger.py: an accepted command of the inbox enters the journal.
use cherry_pulse_kr.Prelude.{
  ℕ, Bool, false, not, ◌&&◌, ◌||◌, Option, none, some, leb, if◌then◌else◌, ◌==◌, nat_eq, string_eq,
  decided, any, find?, ok, err, raise_if,
}
use cherry_pulse_kr.Execution.Price.{Price, strip_left, or_zero}
use cherry_pulse_kr.Execution.Models.{
  Uuid, Key, LedgerError, Raises, side_eq, environment_eq, AppliedConfig, VirtualStopBinding,
  VirtualStopBinding-discrete, validate_binding,
}
use cherry_pulse_kr.Execution.Journal.{Journal}
use cherry_pulse_kr.Execution.External.{External}
use cherry_pulse_kr.Execution.Freshness.{applied_version}
use cherry_pulse_kr.Execution.Storage.{Payload, Entry}
use cherry_pulse_kr.Execution.Transaction.{
  Store, Method, pure, lift, transaction, read_journal, append_entry, ensure_ready, ◌>>=◌, ◌>>◌,
}
use cherry_pulse_kr.Execution.Configure.{binding_entry}
use cherry_pulse_kr.Contracts.Settings.{Settings, ConfigCommand, is_valid_command}

-- `format(threshold, "f")`
unfoldable pub plain_text : Price → Price
unfolding strip_left
plain_text p = record p { whole = or_zero (strip_left p.whole) }

unfoldable pub binding_of : Settings → VirtualStopBinding
unfolding plain_text
binding_of s = record {
  symbol = s.symbol;
  version = s.version;
  rule_kind = s.stop_pattern.stop.kind;
  threshold = plain_text s.stop_pattern.stop.threshold;
}

-- the validator of the binding, whose error pydantic wraps
unfoldable pub checked_binding : Settings → Raises VirtualStopBinding
unfolding validate_binding binding_of
checked_binding s = elim (validate_binding (binding_of s)) [
  | ok b ↦ ok b
  | err e ↦ err LedgerError.validation_error
]

abbrev pub same_binding : Option VirtualStopBinding → VirtualStopBinding → Bool
same_binding none b = false
same_binding (some a) b = decided (VirtualStopBinding-discrete a b)

abbrev pub is_number : Option ℕ → ℕ → Bool
is_number none n = false
is_number (some m) n = m == n

-- the first configuration of a command
unfoldable pub config_of : Uuid → Journal → Option AppliedConfig
config_of id j = find? (λ c. is_number c.command_id id) j.configs

abbrev pub binds_version : Key → ℕ → VirtualStopBinding → Bool
binds_version symbol version b = b.symbol == symbol && b.version == version

-- whether a recorded configuration is what the command asks for
abbrev pub is_same_application : Journal → ℕ → VirtualStopBinding → AppliedConfig → Bool
is_same_application j command_digest b c =
    c.symbol == b.symbol
    && c.version == b.version
    && is_number c.command_digest command_digest
    && same_binding (find? (binds_version b.symbol b.version) j.stop_bindings) b

-- `_existing_inbox_application`
unfoldable pub existing_inbox_application :
    Journal → Uuid → ℕ → VirtualStopBinding → Raises (Option AppliedConfig)
unfolding config_of
existing_inbox_application j id command_digest b = elim (config_of id j) [
  | none ↦ ok none
  | some c ↦
      if is_same_application j command_digest b c
      then ok (some c)
      else err LedgerError.conflict_config_apply_identity
]

-- whether the expected version is the one in force; the implicit first version counts as zero
unfoldable pub is_current : Journal → Key → ℕ → Bool
unfolding applied_version
is_current j symbol expected =
    if any (λ c. c.symbol == symbol) j.configs
    then applied_version j symbol == expected
    else expected == 0 && applied_version j symbol == 1

-- `_check_inbox_apply_version`
unfoldable pub check_inbox_apply_version : Journal → ConfigCommand → Raises (Unit {0})
unfolding is_current
check_inbox_apply_version j c =
    if not (is_current j c.settings.symbol c.expected_version)
    then err LedgerError.stale_config_version
    else raise_if (leb c.settings.version c.expected_version)
        LedgerError.config_version_must_advance

abbrev pub inbox_config : ConfigCommand → ℕ → AppliedConfig
inbox_config c command_digest = record {
  symbol = c.settings.symbol;
  version = c.settings.version;
  command_id = some c.command_id;
  command_digest = some command_digest;
}

-- `digest` is that of contracts/settings.py.
module _ (ext : External) (digest : ConfigCommand → ℕ) where
  abbrev pub config_entry : ConfigCommand → ℕ → Entry
  config_entry c command_digest = record {
    key = ext.uuid_text c.command_id;
    payload = Payload.config (inbox_config c command_digest);
  }

  -- what precedes the transaction
  unfoldable pub check_inbox_command : Store → ConfigCommand → ℕ → Raises (Unit {0})
  unfolding is_valid_command
  check_inbox_command s c command_digest =
      if not (is_valid_command c)
      then err LedgerError.validation_error
      else if not (
          c.settings.account_id == s.lease.scope.account_id
          && c.settings.environment == s.lease.scope.environment)
      then err LedgerError.config_execution_scope_mismatch
      else if c.settings.entry_enabled || c.settings.monitoring_enabled
      then err LedgerError.config_execution_must_remain_disabled
      else raise_if (not (digest c == command_digest)) LedgerError.config_command_digest_mismatch

  abbrev pub check_inbox : ConfigCommand → ℕ → Method (Unit {0})
  check_inbox c command_digest s = lift (check_inbox_command s c command_digest) s

  -- the part for a command that is not in the journal
  unfoldable pub append_config :
      Journal → ConfigCommand → ℕ → VirtualStopBinding → Method AppliedConfig
  unfolding check_inbox_apply_version
  append_config j c command_digest b = do
    lift (check_inbox_apply_version j c)
    lift (
        raise_if (any (binds_version c.settings.symbol c.settings.version) j.stop_bindings)
          LedgerError.conflict_config_apply_version)
    append_entry (config_entry c command_digest)
    append_entry (binding_entry ext b)
    pure (inbox_config c command_digest)

  abbrev pub append_unless :
      Journal → ConfigCommand → ℕ → VirtualStopBinding → Option AppliedConfig → Method AppliedConfig
  append_unless j c command_digest b (some existing) = pure existing
  append_unless j c command_digest b none = append_config j c command_digest b

  abbrev pub inbox_transaction : ConfigCommand → ℕ → VirtualStopBinding → Method AppliedConfig
  inbox_transaction c command_digest b = transaction (do
    ensure_ready
    j ← read_journal
    existing ← lift (existing_inbox_application j c.command_id command_digest b)
    append_unless j c command_digest b existing)

  unfoldable pub apply_inbox_config : ConfigCommand → ℕ → Method AppliedConfig
  unfolding check_inbox_command append_config existing_inbox_application checked_binding
  apply_inbox_config c command_digest = do
    check_inbox c command_digest
    b ← lift (checked_binding c.settings)
    inbox_transaction c command_digest b
