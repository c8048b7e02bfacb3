-- ===== src/Flow/Tests.antt =====
-- The metadata of FlowUpdateMetadata on the wire, at one value.
use nnrp_rs.Base.{ℕ, ◌≡◌, ◌↔◌, refl, List, [], ◌∷◌, replicate}
use nnrp_rs.Error.{ok, err, invalid_protocol_combination}
use nnrp_rs.Enums.BackpressureLevel
use nnrp_rs.Enums.BackpressureLevel.{BackpressureLevel}
use nnrp_rs.Enums.FlowScopeKind
use nnrp_rs.Enums.FlowScopeKind.{FlowScopeKind}
use nnrp_rs.Enums.FlowUpdateReason
use nnrp_rs.Enums.FlowUpdateReason.{FlowUpdateReason}
use nnrp_rs.Wire.Little.{IsByte}
use nnrp_rs.Enums.MessageType
use nnrp_rs.Header.{CommonHeader}
use nnrp_rs.Flow.Routing.{FitsScope, RetryAnnounced, validate_routing_iff}
use nnrp_rs.Flow.{FlowUpdateMetadata, validate_routing, parse, write, copy_fields, read_fields}

abbrev example : FlowUpdateMetadata
example = record {
  scope_kind = FlowScopeKind.operation;
  update_reason = FlowUpdateReason.congestion;
  backpressure_level = BackpressureLevel.paused;
  connection_credit = 514;
  session_credit = 3;
  operation_credit = 260;
  operation_id = 517;
  retry_after_ms = 6;
  credit_epoch = 263;
  flow_flags = 1;
}

abbrev example_bytes : List ℕ
example_bytes =
    2 ∷ 4 ∷ 3 ∷ 0 ∷ 2 ∷ 2 ∷ 3 ∷ 0 ∷ 4 ∷ 1 ∷ 0 ∷ 0 ∷ 5 ∷ 2 ∷ 0 ∷ 0 ∷ 0 ∷ 0 ∷ 0 ∷ 0 ∷ 6 ∷ 0 ∷ 0 ∷ 0
    ∷ 7 ∷ 1 ∷ 0 ∷ 0 ∷ 1 ∷ 0 ∷ 0 ∷ 0 ∷ []

example_written : write example (replicate 32 0xff) ≡ ok example_bytes
unfolding write copy_fields nnrp_rs.Wire.validate_mask FlowScopeKind.as_u8 FlowUpdateReason.as_u8
    BackpressureLevel.as_u8
example_written = refl

example_parsed : parse example_bytes ≡ ok example
unfolding parse read_fields nnrp_rs.Wire.Buffer.byte_at nnrp_rs.Wire.read_u16
    nnrp_rs.Wire.Little.from_le nnrp_rs.Wire.validate_mask nnrp_rs.Wire.read_u32
    FlowScopeKind.try_from_u8 FlowUpdateReason.try_from_u8 BackpressureLevel.try_from_u8
    nnrp_rs.Wire.read_u64
example_parsed = refl

abbrev example_header : CommonHeader
example_header = record {
  version_major = 1;
  wire_format = 0;
  message_type = MessageType.flow_update;
  header_len = 40;
  flags = record { bits = 0 };
  meta_len = 32;
  body_len = 0;
  session_id = 42;
  frame_id = 0;
  view_id = 0;
  route_id = 0;
  trace_id = 0;
}

validate_routing_iff_example : (validate_routing example example_header ≡ ok tt) ↔ (
    (MessageType.flow_update ≡ MessageType.flow_update)
    × FitsScope example example_header FlowScopeKind.operation
    × RetryAnnounced example)
validate_routing_iff_example = validate_routing_iff example example_header

-- A retry delay without its flag.
unannounced_retry_refused :
    validate_routing example example_header
    ≡ err
        (invalid_protocol_combination "FLOW_UPDATE retry_after_ms requires retry_after_valid flag")
unfolding validate_routing
unannounced_retry_refused = refl
