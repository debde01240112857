-- ===== src/Request.antt =====
-- `servers/normalized_path.rs` and `servers/authorized_request_context.rs`: which request a request
-- is. Rocket's request guards, which read the headers, are not modelled.
pub mod Path
pub mod Context
pub mod Encodings
pub mod Cache
