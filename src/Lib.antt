-- ===== src/Lib.antt =====
-- CherryPulse: the virtual order execution of the package execution/, the settings and their inbox
-- of the package contracts/, and the polling schedule of sync/polling.py.
--
-- The package keeps, for an account and an environment (a scope), an append-only journal of
-- requests (what was asked), facts (what the broker side reported) and configuration, in one
-- SQLite file. `Ledger` appends to it; everything else is projected from it: the status of a
-- request, the quantities of an order, the holdings of a symbol. `VirtualDispatcher` sends an
-- intention by claiming it in the journal first. A lease serializes the processes.
--
-- The parts, each with the file that models it, under Execution/ where no folder is named:
-- - execution/models.py: Models (commands, requests, configuration records, the validators of
--   `New`, `Amend` and `VirtualStopBinding`) and Price (the price texts and their canonical form).
-- - execution/query_evidence.py: Query. execution/facts.py: Facts.
-- - execution/storage.py: Journal (the snapshot and its revision), Storage (the tables, `append`
--   with the outbox trigger, `read`, the cursors), Transaction (`Storage.transaction`).
-- - execution/ownership.py: Lease.
-- - execution/outcomes.py: Outcomes. execution/projection.py: Projection (`order`), Lifecycle
--   (`Order.lifecycle`), Portfolio (`portfolio`) and StopHoldings (the holdings under a stop, their
--   cost basis and the average cost of an order).
-- - execution/freshness.py: Freshness. execution/linkage.py: Linkage.
--   execution/validation.py: Validation.
-- - execution/ledger.py: Submit (`submit`), Ingest (`ingest`, `discard`), Configure (`allocate`,
--   `control`, `apply_config`, `apply_virtual_stop_config`, `virtual_stop_binding`), Review (the
--   reading methods and `approve_virtual_reconciliation`),
--   StopQuotes (`process_virtual_stop_quote`), StopCandidates (what may be sold for a stop) and
--   StopLatches (`latch_virtual_price_stop`, `latch_virtual_cost_stop`).
-- - execution/quote_status.py: QuoteStatus. contracts/stop_evaluation.py: Contracts/StopEvaluation,
--   on the arithmetic of Contracts/Decimal.
-- - execution/stop_obligations.py: StopObligations. execution/quarantine.py: Quarantine.
-- - execution/virtual.py: Claim (the transaction of `send`), Recovery (that of `recover`),
--   Dispatcher (`send`, `acknowledge`, `recover`) and Drain (`drain_virtual_stop`, `process`).
-- - contracts/settings.py: Contracts/Settings. contracts/inbox.py: Contracts/Inbox (the table and
--   `receive`) and Contracts/Application (the states of the local application).
-- - execution/ledger.py, `apply_inbox_config`: InboxConfig. execution/config_apply.py: ConfigApply,
--   on the table of the inbox and the store of the ledger, which commit separately.
-- - sync/polling.py: Sync/Polling; Sync/Backoff proves its properties. It stands by itself.
--
-- How the code is represented. A UUID is a number that is only compared; a timestamp is a number
-- of microseconds, and a date a number of days. A text field is a text. A price is its digits.
-- An entry's payload is the value whose JSON text the code stores, since pydantic's round trip is
-- not part of this code: where the code compares two JSON texts, the values are compared.
-- What a model's constructor checks by its field types (a positive quantity) is no part of the
-- types here, and is a hypothesis where it matters. A method is a function on the store that
-- returns a value and the store, or the code of the error, in which case the caller keeps the
-- store that it had: this is the rollback of a transaction. The clock and `uuid4` are arguments
-- of a method; name-based UUIDs, the texts of UUIDs and the digest are the fields of External.
-- Sequences of transactions, one after the other, are lists of Calls.Operation: SQLite's
-- `BEGIN IMMEDIATE` lets no two of them overlap. The evaluation of a quote, which also replaces a
-- cursor, is none of these operations. Every loop of the code runs over a
-- list that is there, so it is structural recursion; only Contracts/Decimal uses fuel.
--
-- History, AppendOnly and Calls prove what every transaction does to the journal, Replay and
-- Events what follows for repeated calls, Actions and SendOnce the same for the dispatcher,
-- Reservation and SellSafety what a new request does to the projections, Discarded what follows a
-- discard, Admission and StoppedBuys what a new command is refused for, Settled how the status of
-- a request changes, Recovered, RecoveryFacts and RecoveredStatus what a recovery does, Released,
-- Versions, StopViews and Pages what single operations compute. InForce, OpenRequests and Ready
-- say conditions of the code without its tests, Prelude/Last with the last element of a list.
-- LatchGrows, LatchedOnce and QuoteLatched do so for latches, CandidateSafety and
-- Contracts/Protection for candidates, DrainCovered for a drain, with the examples of LatchTests.
-- For the inbox, Contracts/Moves and Contracts/Sound say what rows may become and what holds of a
-- table, Calls and Table follow its calls, Recorded, Received, Accept, Again, Replayed and Lookup
-- what a command is answered. InboxApplied, InboxOnce and InboxLedger do so for the ledger's
-- part, ConfigResumed, ConfigBacked, ConfigKept and ConfigHistory for the coordinator's; each
-- package has its fixtures and tests. Tests and Samples hold tests and examples, on the account
-- of Fixtures and the stores of Scenario. FreshOrder, Found and Observed hold lemmas for these.
--
-- A threshold of the settings is written without exponent. The authenticator of the inbox is an
-- argument of `receive`, and the digest of a command one of the definitions that use it. A price of
-- a quote is written without exponent too; decimal arithmetic is that of the default context, with
-- 28 digits, and has no bound on the exponent. The length of a number is counted on the number as
-- fuel, which is more than its digits.
--
-- Not modelled: the process file lock, the schemas' creation and upgrade, JSON parsing, the
-- evaluation of buys and sells, and the packages adapters, notifications, tools, web, cloud and
-- supabase. The code under back/ is a retired program.
pub mod Prelude
pub mod Execution
pub mod Contracts
pub mod Sync
