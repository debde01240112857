-- ===== src/Store/Deltas.antt =====
-- `datastore/deltas_store.rs`: the last config deltas of each SDK key, and the combined delta that a
-- client is sent. The protobuf messages are generated from a submodule and the decompressors are
-- crates: both enter by a `Codec`.
pub mod Codec
pub mod Cache
pub mod Assemble
pub mod Combine
pub mod Decode
pub mod Observe
pub mod Valid
