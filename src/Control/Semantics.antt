-- ===== src/Control/Semantics.antt =====
-- crates/nnrp-core/src/control.rs: the rules on control metadata that go beyond its layout.
pub mod Rules
mod Tests
use nnrp_rs.Base.{ℕ, not, ◌||◌, ◌&&◌, ◌==◌, ◌!=◌, leb, bit_and}
use nnrp_rs.Error.{
  Result, ok, err, ◌>>=◌, ◌>>◌, reject_if, invalid_protocol_combination, unknown_enum_value,
}
use nnrp_rs.Enums.MessageType.{MessageType}
use nnrp_rs.Control.Request.{ControlRequestMetadata}
use nnrp_rs.Control.Scheduling.{SchedulingMetadata}
use nnrp_rs.Control.Progress.{ProgressMetadata}
use nnrp_rs.Control.PartialResult.{PartialResultMetadata}
use nnrp_rs.Control.DropReason.{ResultDropReasonMetadata}

-- The roles of the standard, and those left to applications.
validate_standard_role : ℕ → Result (Unit {0})
validate_standard_role value =
    reject_if (not (leb value 0x07 || leb 0x80 value)) (unknown_enum_value "runtime_role" value)

-- The `match` of `validate_control_request_semantics`.
requires_control_request : MessageType → Result (Unit {0})
requires_control_request MessageType.cancel = ok tt
requires_control_request MessageType.abort = ok tt
requires_control_request _ =
    err (invalid_protocol_combination "control request metadata requires CANCEL or ABORT")

pub validate_control_request_semantics : MessageType → ControlRequestMetadata → Result (Unit {0})
unfolding validate_standard_role requires_control_request
validate_control_request_semantics message_type metadata = do
  requires_control_request message_type
  validate_standard_role metadata.source_role

-- The arm of DEADLINE and EXPIRE_AT.
requires_deadline : SchedulingMetadata → Result (Unit {0})
requires_deadline metadata =
    reject_if (metadata.deadline_unix_ms == 0)
      (invalid_protocol_combination "DEADLINE and EXPIRE_AT require deadline_unix_ms")

unfoldable pub validate_scheduling_semantics : MessageType → SchedulingMetadata → Result (Unit {0})
unfolding requires_deadline
validate_scheduling_semantics MessageType.priority_update metadata = ok tt
validate_scheduling_semantics MessageType.deadline metadata = requires_deadline metadata
validate_scheduling_semantics MessageType.expire_at metadata = requires_deadline metadata
validate_scheduling_semantics _ metadata = err (
    invalid_protocol_combination
      "scheduling metadata requires PRIORITY_UPDATE, DEADLINE, or EXPIRE_AT")

pub validate_progress_semantics : ProgressMetadata → Result (Unit {0})
validate_progress_semantics metadata =
    reject_if (metadata.operation_id == 0)
      (invalid_protocol_combination "PROGRESS requires a non-zero operation_id")

pub validate_partial_result_semantics : PartialResultMetadata → Result (Unit {0})
validate_partial_result_semantics metadata = do
  reject_if (metadata.operation_id == 0)
      (invalid_protocol_combination "PARTIAL_RESULT requires a non-zero operation_id")
  reject_if (bit_and metadata.flags 0x2 != 0 && metadata.object_id == 0)
      (invalid_protocol_combination "PARTIAL_RESULT object-ref flag requires object_id")
  reject_if (metadata.body_bytes == 0 && metadata.object_id == 0)
      (invalid_protocol_combination "PARTIAL_RESULT requires inline body bytes or object_id")

pub validate_result_drop_reason_semantics : ResultDropReasonMetadata → Result (Unit {0})
unfolding validate_standard_role
validate_result_drop_reason_semantics metadata = do
  reject_if (metadata.operation_id == 0)
      (invalid_protocol_combination "RESULT_DROP_REASON requires a non-zero operation_id")
  reject_if (metadata.drop_reason_code == 0)
      (invalid_protocol_combination "RESULT_DROP_REASON requires a non-zero drop_reason_code")
  validate_standard_role metadata.source_role
