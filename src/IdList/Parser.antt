-- ===== src/IdList/Parser.antt =====
-- `idlist_membership/worker/parser.rs`: the change lines of an id-list file, which arrives in chunks.
-- A byte is a number below 256; a `String` from the file is the list of its bytes.
pub mod Decoder
pub mod Chunks
pub mod Offsets
pub mod Ranges
