-- ===== src/IdList.antt =====
-- `datastore/idlist_membership/`: the reverse index of ID lists in Redis. A producer plans the work
-- that the manifests call for, workers apply files to Redis sets.
pub mod Schema
pub mod Lock
pub mod Planning
pub mod Parser
pub mod Worker
pub mod Namespaces
