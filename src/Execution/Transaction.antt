-- ===== src/Execution/Transaction.antt =====
-- `Storage.transaction`: a method reads and changes the store, or it raises and the store that
-- it began with is kept, as `BEGIN IMMEDIATE` and the rollback of a failed block have it.
use cherry_pulse_kr.Prelude.{ℕ, nat_eq, string_eq, ok, err}
use cherry_pulse_kr.Execution.Models.{LedgerError, Raises, side_eq, environment_eq}
use cherry_pulse_kr.Execution.Journal.{Journal}
use cherry_pulse_kr.Execution.Lease.{Lease, operation, require_ready}
use cherry_pulse_kr.Execution.Storage.{Database, Entry, insert, read}

-- The database file, the lease over it and the process that calls.
pub record Store : Type 0 where
  pub db : Database
  pub lease : Lease
  pub process : ℕ

abbrev pub Method : Type 0 → Type 0
Method A = Store → Raises (A × Store)

abbrev pub pure : {A : Type 0} → A → Method A
pure a s = ok (a, s)

abbrev pub raise : {A : Type 0} → LedgerError → Method A
raise e s = err e

abbrev pub lift : {A : Type 0} → Raises A → Method A
lift r s = elim r [ ok a ↦ ok (a, s) | err e ↦ err e ]

infixl 5 ◌>>=◌ ◌>>◌
abbrev pub ◌>>=◌ : {A B : Type 0} → Method A → (A → Method B) → Method B
◌>>=◌ m f s = elim (m s) [ ok p ↦ f p.0 p.1 | err e ↦ err e ]

abbrev pub ◌>>◌ : {B : Type 0} → Method (Unit {0}) → Method B → Method B
m >> k = m >>= λ _. k

-- `transaction`, whose lease must be owned by the process
unfoldable pub transaction : {A : Type 0} → Method A → Method A
unfolding operation
transaction m s = elim (operation s.lease s.process) [ ok u ↦ m s | err e ↦ err e ]

-- `Storage.read` in a transaction
unfoldable pub read_journal : Method Journal
unfolding read
read_journal s = ok (read s.lease.scope s.db, s)

-- `Storage.append` in a transaction
unfoldable pub append_entry : Entry → Method (Unit {0})
unfolding insert
append_entry e s = elim (insert s.lease.scope e s.db) [
  | ok db ↦ ok (tt, record s { db = db })
  | err x ↦ err x
]

-- `lease.require_ready()`
unfoldable pub ensure_ready : Method (Unit {0})
unfolding require_ready
ensure_ready s = lift (require_ready s.lease s.process) s
