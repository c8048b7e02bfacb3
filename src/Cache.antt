-- ===== src/Cache.antt =====
-- crates/nnrp-core/src/cache.rs: the messages about cached objects, and the rules of leases and
-- dependencies.
pub mod Put
pub mod Ack
pub mod Invalidate
pub mod Objects
pub mod Leases
pub mod Policy
pub mod Dependencies
