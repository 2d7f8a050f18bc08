-- ===== src/Execution/Lease.antt =====
-- execution/ownership.py: the session gate of an account. The operating system's file lock is
-- held while `held` is set; a method takes the identity of the process that calls it.
use cherry_pulse_kr.Prelude.{
  ℕ, Bool, true, false, not, ◌&&◌, Option, none, some, ◌==◌, nat_eq, string_eq, ok, ◌>>◌, raise_if,
}
use cherry_pulse_kr.Execution.Models.{LedgerError, Raises, side_eq, environment_eq, Scope}

pub record Lease : Type 0 where
  pub scope : Scope
  pub owner : ℕ
  pub held : Bool
  pub is_approved : Bool
  pub database : Option ℕ

-- `__init__`, and what `acquire` sets once it has the lock
unfoldable pub acquired : Scope → ℕ → Lease
acquired scope process = record {
  scope = scope;
  owner = process;
  held = true;
  is_approved = false;
  database = none;
}

-- the test of `operation`
unfoldable pub owned : Lease → ℕ → Bool
owned l process = l.held && l.owner == process

-- `operation`
unfoldable pub operation : Lease → ℕ → Raises (Unit {0})
unfolding owned
operation l process = raise_if (not (owned l process)) LedgerError.account_lock_not_owned

-- `ready`
unfoldable pub lease_ready : Lease → ℕ → Bool
lease_ready l process = l.held && l.is_approved && l.owner == process

unfoldable pub bind_database : Lease → ℕ → ℕ → Raises Lease
unfolding operation
bind_database l process path = do
  operation l process
  raise_if (elim l.database [ none ↦ false | some bound ↦ not (bound == path) ])
      LedgerError.account_ledger_already_bound
  ok (record l { database = some path })

unfoldable pub require_ready : Lease → ℕ → Raises (Unit {0})
unfolding operation
require_ready l process = do
  operation l process
  raise_if (not l.is_approved) LedgerError.session_reconciliation_required

unfoldable pub approve_virtual_review : Lease → ℕ → Raises Lease
unfolding operation
approve_virtual_review l process = do operation l process; ok (record l { is_approved = true })

unfoldable pub retire : Lease → Lease
retire l = record l { held = false; is_approved = false }
