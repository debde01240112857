-- ===== src/IdList/Planning.antt =====
-- `idlist_membership/redis_syncer/planning.rs`: which lists of the manifest need work, and the
-- order in which the producer puts the tasks into the queue.
pub mod Decide
pub mod Laws
pub mod Order
pub mod Assigned
pub mod Scores
pub mod Queue
