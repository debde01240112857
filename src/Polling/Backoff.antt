-- ===== src/Polling/Backoff.antt =====
-- `request_backoff.rs`. Durations and instants are numbers of nanoseconds; the additions to an
-- `Instant` are far from its range.
pub mod Delay
pub mod Controller
pub mod History
pub mod Pruning
