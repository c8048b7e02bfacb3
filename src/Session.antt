-- ===== src/Session.antt =====
-- crates/nnrp-core/src/session.rs: the four metadata records that open and close a session.
pub mod Open
pub mod OpenAck
pub mod Close
pub mod CloseAck
