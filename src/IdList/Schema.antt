-- ===== src/IdList/Schema.antt =====
-- `idlist_membership/schema.rs`: the parsed sync state of a list, the escaping of key components,
-- the keys and the queue members. The key hash is a parameter where it matters.
pub mod State
pub mod Keys
pub mod Codec
pub mod Tokens
pub mod Allocation
pub mod Apart
