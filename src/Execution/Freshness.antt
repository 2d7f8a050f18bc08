-- ===== src/Execution/Freshness.antt =====
-- execution/freshness.py: the configuration in force, and the deadline of a command.
use cherry_pulse_kr.Prelude.{
  ℕ, Bool, false, not, Option, none, some, leb, ◌==◌, nat_eq, string_eq, keep, get_last?, err, ◌>>◌,
  raise_if,
}
use cherry_pulse_kr.Execution.Models.{
  Key, Timestamp, Datetime, LedgerError, Raises, side_eq, environment_eq, OrderCommand, common,
}
use cherry_pulse_kr.Execution.Journal.{Journal}

unfoldable pub applied_version : Journal → Key → ℕ
applied_version j symbol = elim (get_last? (keep (λ c. c.symbol == symbol) j.configs)) [
  | none ↦ 1
  | some c ↦ c.version
]

abbrev pub is_expired : Option Timestamp → Timestamp → Bool
is_expired none now = false
is_expired (some t) now = leb t now

unfoldable pub check_freshness : Journal → OrderCommand → Datetime → Raises (Unit {0})
check_freshness j command (Datetime.naive t) = err LedgerError.clock_timezone_required
check_freshness j command (Datetime.aware now) = do
  raise_if (is_expired (common command).expires_at now) LedgerError.command_expired
  raise_if (not ((common command).config_version == applied_version j (common command).symbol))
      LedgerError.stale_config_version
