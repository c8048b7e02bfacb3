-- ===== src/Schema.antt =====
-- crates/nnrp-core/src/schema.rs: schema descriptors, typed payloads, and the registry of schemas.
pub mod Descriptor
pub mod Payload
pub mod Registry
