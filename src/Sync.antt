-- ===== src/Sync.antt =====
-- The `sync` package: the schedule of the polls of the board.
pub mod Polling
pub mod Backoff
pub mod Tests
