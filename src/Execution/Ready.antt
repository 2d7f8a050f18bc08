-- ===== src/Execution/Ready.antt =====
-- The sessions in which methods that ask for the reviewed lease run (execution/ownership.py).
use cherry_pulse_kr.Prelude.{◌≡◌, ok}
use cherry_pulse_kr.Execution.Lease.{operation, require_ready}
use cherry_pulse_kr.Execution.Transaction.{Store}

-- The process owns a session that was approved.
pub record IsReady (s : Store) : Type 0 where
  pub operating : operation s.lease s.process ≡ ok tt
  pub ready : require_ready s.lease s.process ≡ ok tt
