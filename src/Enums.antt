-- ===== src/Enums.antt =====
-- crates/nnrp-core/src/enums.rs: the enumerations of the protocol, one module each.
mod Arms
pub mod MessageType
pub mod SessionPriorityClass
pub mod SessionStatus
pub mod SessionCloseReason
pub mod InFlightPolicy
pub mod SessionCloseStatus
pub mod ResultTerminalState
pub mod CancelScope
pub mod FlowScopeKind
pub mod FlowUpdateReason
pub mod BackpressureLevel
pub mod OperationCode
pub mod CacheObjectKind
pub mod CacheAckStatus
pub mod CacheInvalidateScope
pub mod PayloadKind
pub mod CacheReuseScope
pub mod TransportId
pub mod HeaderFlags
mod Tests
