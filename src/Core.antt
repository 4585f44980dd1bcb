-- ===== src/Core.antt =====
-- core/: the pure hash-chain primitives.
pub mod Hash
pub mod HashTime
pub mod Payload
pub mod Verify
