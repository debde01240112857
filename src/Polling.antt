-- ===== src/Polling.antt =====
-- `datastore/data_providers`: when the background poller asks for a config again, and what it tells
-- the observers about the answer.
pub mod Backoff
pub mod Cadence
pub mod Outcome
