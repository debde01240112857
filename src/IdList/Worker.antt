-- ===== src/IdList/Worker.antt =====
-- `idlist_membership/worker/`: a worker takes a task from the queue and applies the file of one list
-- to the Redis sets of its company.
pub mod Redis
pub mod Step
pub mod Send
pub mod Config
pub mod Task
pub mod Apply
pub mod Scan
pub mod Diff
pub mod Commit
pub mod Reload
pub mod Removal
pub mod Run
