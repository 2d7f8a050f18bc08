-- ===== src/Execution/Configure.antt =====
-- `allocate`, `control`, `apply_config`, `apply_virtual_stop_config` and
-- `virtual_stop_binding` of execution/ledger.py.
use cherry_pulse_kr.Prelude.{
  ℕ, Bool, false, not, ◌&&◌, ◌||◌, Option, none, some, reverse, leb, if◌then◌else◌, ◌==◌, nat_eq,
  string_eq, decided, any, find?, raise_if,
}
use cherry_pulse_kr.Execution.Models.{
  Uuid, Key, LedgerError, side_eq, environment_eq, common, is_some, AppliedConfig,
  VirtualStopBinding, Allocation, Control, Allocation-discrete,
}
use cherry_pulse_kr.Execution.Journal.{Journal}
use cherry_pulse_kr.Execution.External.{External}
use cherry_pulse_kr.Execution.Freshness.{applied_version}
use cherry_pulse_kr.Execution.Storage.{Payload, Entry}
use cherry_pulse_kr.Execution.Transaction.{
  Method, pure, lift, transaction, read_journal, append_entry, ensure_ready, ◌>>=◌, ◌>>◌,
}
use Prim.Native.String.{◌++◌ as concat}

abbrev pub same_allocation : Allocation → Allocation → Bool
same_allocation a b = decided (Allocation-discrete a b)

abbrev pub first_allocation : Key → Journal → Option Allocation
first_allocation symbol j = find? (λ b. b.symbol == symbol) j.allocations

abbrev pub is_recorded : Allocation → Option Allocation → Bool
is_recorded a none = false
is_recorded a (some b) = same_allocation b a

-- the part of `allocate` for an allocation that is not the recorded one
unfoldable pub start_allocation : Journal → Allocation → Method (Unit {0})
start_allocation j a = do
  ensure_ready
  lift (
      raise_if
        (is_some (first_allocation a.symbol j)
          || any (λ r. (common r.command).symbol == a.symbol) j.requests)
        LedgerError.allocation_already_started)
  append_entry (record { key = a.symbol; payload = Payload.allocation a })

unfoldable pub allocate : Allocation → Method (Unit {0})
unfolding start_allocation
allocate a = transaction (do
  j ← read_journal
  if is_recorded a (first_allocation a.symbol j) then pure tt else start_allocation j a)

module _ (ext : External) where
  -- `fresh` is what `uuid4` returns
  unfoldable pub control : Control → Uuid → Method (Unit {0})
  control c fresh = transaction (do
    ensure_ready
    append_entry (record { key = ext.uuid_text fresh; payload = Payload.control c }))

  abbrev pub plain_config : Key → ℕ → AppliedConfig
  plain_config symbol version = record {
    symbol = symbol;
    version = version;
    command_id = none;
    command_digest = none;
  }

  -- compare, and append a newer revision
  unfoldable pub advance_config : AppliedConfig → ℕ → Uuid → Method (Unit {0})
  unfolding applied_version
  advance_config c expected_version fresh = do
    ensure_ready
    j ← read_journal
    lift (
        raise_if (not (applied_version j c.symbol == expected_version))
          LedgerError.stale_config_version)
    lift (raise_if (leb c.version expected_version) LedgerError.config_version_must_advance)
    append_entry (record { key = ext.uuid_text fresh; payload = Payload.config c })

  unfoldable pub apply_config : Key → (expected_version version : ℕ) → Uuid → Method (Unit {0})
  unfolding advance_config
  apply_config symbol expected_version version fresh =
      transaction (advance_config (plain_config symbol version) expected_version fresh)

  abbrev pub binding_entry : VirtualStopBinding → Entry
  binding_entry b = record {
    key = concat b.symbol (concat ":" (ext.number_text b.version));
    payload = Payload.stop_binding b;
  }

  unfoldable pub apply_virtual_stop_config : VirtualStopBinding → ℕ → Uuid → Method (Unit {0})
  unfolding advance_config
  apply_virtual_stop_config b expected_version fresh = transaction (do
    advance_config (plain_config b.symbol b.version) expected_version fresh
    append_entry (binding_entry b))

unfoldable pub virtual_stop_binding : Key → Method (Option VirtualStopBinding)
unfolding applied_version
virtual_stop_binding symbol = transaction (do
  j ← read_journal
  pure (
      find? (λ b. b.symbol == symbol && b.version == applied_version j symbol)
        (reverse j.stop_bindings)))
