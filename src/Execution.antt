-- ===== src/Execution.antt =====
-- The `execution` package: the virtual ledger, its projections and its dispatcher.
pub mod Price
pub mod Models
pub mod Query
pub mod Facts
pub mod Journal
pub mod Outcomes
pub mod Projection
pub mod Lifecycle
pub mod Portfolio
pub mod External
pub mod Freshness
pub mod InForce
pub mod Linkage
pub mod Validation
pub mod Lease
pub mod Storage
pub mod Transaction
pub mod Submit
pub mod Ingest
pub mod Configure
pub mod StopObligations
pub mod Review
pub mod Quarantine
pub mod Claim
pub mod Dispatcher
pub mod History
pub mod AppendOnly
pub mod Calls
pub mod Found
pub mod Replay
pub mod FreshOrder
pub mod Reservation
pub mod SellSafety
pub mod Events
pub mod Recovery
pub mod Observed
pub mod SendOnce
pub mod Actions
pub mod Fixtures
pub mod Scenario
pub mod Samples
pub mod Tests
pub mod Admission
pub mod StoppedBuys
pub mod Ready
pub mod Settled
pub mod Recovered
pub mod OpenRequests
pub mod RecoveredStatus
pub mod RecoveryFacts
pub mod Versions
pub mod StopViews
pub mod Pages
pub mod Discarded
pub mod Released
pub mod InboxConfig
pub mod ConfigApply
pub mod InboxApplied
pub mod InboxOnce
pub mod InboxLedger
pub mod ConfigResumed
pub mod ConfigBacked
pub mod ConfigKept
pub mod ConfigHistory
pub mod ConfigTests
pub mod StopHoldings
pub mod StopQuotes
pub mod QuoteStatus
pub mod StopCandidates
pub mod StopLatches
pub mod LatchGrows
pub mod LatchedOnce
pub mod QuoteLatched
pub mod CandidateSafety
pub mod DrainCovered
pub mod LatchTests
pub mod Drain
