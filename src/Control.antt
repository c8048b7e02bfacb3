-- ===== src/Control.antt =====
-- crates/nnrp-core/src/control.rs: the metadata of the messages that steer operations.
pub mod Checks
pub mod Request
pub mod Scheduling
pub mod Supersede
pub mod Progress
pub mod PartialResult
pub mod DropReason
pub mod Pressure
pub mod Semantics
