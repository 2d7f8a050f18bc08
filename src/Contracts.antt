-- ===== src/Contracts.antt =====
-- The `contracts` package: desired settings, the inbox that keeps them, and the pure evaluation of rules.
pub mod Settings
pub mod Inbox
pub mod Application
pub mod Moves
pub mod Sound
pub mod Received
pub mod Recorded
pub mod Calls
pub mod Append
pub mod Table
pub mod Lookup
pub mod Accept
pub mod Again
pub mod Replayed
pub mod Tests
pub mod Fixtures
pub mod Decimal
pub mod StopEvaluation
pub mod Protection
