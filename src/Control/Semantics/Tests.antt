-- ===== src/Control/Semantics/Tests.antt =====
-- The rules on control metadata at concrete values.
use nnrp_rs.Base.{◌≡◌, ◌≢◌, ◌⊎◌, ◌↔◌, refl, bit_and}
use nnrp_rs.Error.{ok, err, unknown_enum_value}
use nnrp_rs.Enums.MessageType.{MessageType}
use nnrp_rs.Control.Request.{ControlRequestMetadata}
use nnrp_rs.Control.PartialResult.{PartialResultMetadata}
use nnrp_rs.Control.DropReason.{ResultDropReasonMetadata}
use nnrp_rs.Control.Semantics.{
  validate_control_request_semantics, validate_partial_result_semantics,
  validate_result_drop_reason_semantics,
}
use nnrp_rs.Control.Semantics.Rules.{
  IsRole, validate_control_request_semantics_iff, validate_partial_result_semantics_iff,
  validate_result_drop_reason_semantics_iff,
}

abbrev request : ControlRequestMetadata
request = record {
  operation_id = 7;
  control_sequence = 1;
  reason_code = 2;
  source_role = 9;
  flags = 1;
  diagnostic_bytes = 0;
}

cancel_by_observer : (validate_control_request_semantics MessageType.cancel request ≡ ok tt) ↔ (
    ((MessageType.cancel ≡ MessageType.cancel) ⊎ (MessageType.cancel ≡ MessageType.abort))
    × IsRole 9)
cancel_by_observer = validate_control_request_semantics_iff MessageType.cancel request

-- Role 9 is neither of the standard nor left to applications.
unknown_role_refused :
    validate_control_request_semantics MessageType.cancel request
    ≡ err (unknown_enum_value "runtime_role" 9)
unfolding validate_control_request_semantics
unknown_role_refused = refl

abbrev partial : PartialResultMetadata
partial = record {
  operation_id = 7;
  result_sequence = 1;
  object_id = 0;
  delta_sequence = 0;
  body_bytes = 16;
  flags = 1;
}

partial_with_body : (validate_partial_result_semantics partial ≡ ok tt) ↔ (
    (partial.operation_id ≢ 0)
    × ((partial.object_id ≢ 0) ⊎ ((partial.body_bytes ≢ 0) × (bit_and partial.flags 2 ≡ 0))))
partial_with_body = validate_partial_result_semantics_iff partial

partial_result_accepted : validate_partial_result_semantics partial ≡ ok tt
unfolding validate_partial_result_semantics
partial_result_accepted = refl

abbrev dropped : ResultDropReasonMetadata
dropped = record {
  operation_id = 7;
  result_sequence = 1;
  drop_reason_code = 1;
  source_role = 128;
  flags = 0;
  diagnostic_bytes = 0;
}

dropped_with_reason :
    (validate_result_drop_reason_semantics dropped ≡ ok tt)
    ↔ ((dropped.operation_id ≢ 0) × (dropped.drop_reason_code ≢ 0) × IsRole 128)
dropped_with_reason = validate_result_drop_reason_semantics_iff dropped
