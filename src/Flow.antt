-- ===== src/Flow.antt =====
-- crates/nnrp-core/src/flow.rs: the metadata of FLOW_UPDATE, which grants and withdraws credit.
pub mod RoundTrip
mod Tests
pub mod Routing
use nnrp_rs.Base.{
  ℕ, Bool, true, false, not, List, [], ◌∷◌, ◌==◌, ◌!=◌, ◌||◌, ◌&&◌, replicate, bit_and,
}
use nnrp_rs.Error.{Result, ok, ◌>>=◌, ◌>>◌, reject_if, invalid_protocol_combination}
use nnrp_rs.Enums.BackpressureLevel
use nnrp_rs.Enums.BackpressureLevel.{BackpressureLevel}
use nnrp_rs.Enums.FlowScopeKind
use nnrp_rs.Enums.FlowScopeKind.{FlowScopeKind}
use nnrp_rs.Enums.FlowUpdateReason
use nnrp_rs.Enums.FlowUpdateReason.{FlowUpdateReason}
use nnrp_rs.Wire.{
  Write, writes, write_u8, write_u16, write_u32, write_u64, read_u16, read_u32, read_u64,
  require_len, require_destination_len, validate_zero, validate_mask,
}
use nnrp_rs.Wire.Buffer.{byte_at}
use nnrp_rs.Enums.MessageType.{MessageType}
use nnrp_rs.Header.{CommonHeader}

abbrev pub metadata_len : ℕ
metadata_len = 32

abbrev pub flags_known_mask : ℕ
flags_known_mask = 0xf

pub record FlowUpdateMetadata : Type 0 where
  pub scope_kind : FlowScopeKind
  pub update_reason : FlowUpdateReason
  pub backpressure_level : BackpressureLevel
  pub connection_credit : ℕ
  pub session_credit : ℕ
  pub operation_credit : ℕ
  pub operation_id : ℕ
  pub retry_after_ms : ℕ
  pub credit_epoch : ℕ
  pub flow_flags : ℕ

-- The literal that `parse` ends with.
pub read_fields : List ℕ → FlowScopeKind → FlowUpdateReason → BackpressureLevel → FlowUpdateMetadata
read_fields source scope_kind update_reason backpressure_level = record {
  scope_kind = scope_kind;
  update_reason = update_reason;
  backpressure_level = backpressure_level;
  connection_credit = read_u16 source 4;
  session_credit = read_u16 source 6;
  operation_credit = read_u16 source 8;
  operation_id = read_u64 source 12;
  retry_after_ms = read_u32 source 20;
  credit_epoch = read_u32 source 24;
  flow_flags = read_u32 source 28;
}

pub parse : List ℕ → Result FlowUpdateMetadata
parse source = do
  require_len source metadata_len
  validate_zero "flow_update.reserved0" (byte_at source 3)
  validate_zero "flow_update.reserved1" (read_u16 source 10)
  validate_mask 32 (read_u32 source 28) flags_known_mask
  scope_kind ← FlowScopeKind.try_from_u8 (byte_at source 0)
  update_reason ← FlowUpdateReason.try_from_u8 (byte_at source 1)
  backpressure_level ← BackpressureLevel.try_from_u8 (byte_at source 2)
  ok (read_fields source scope_kind update_reason backpressure_level)

-- The writes of `write`, in order.
field_writes : FlowUpdateMetadata → List Write
field_writes m =
    (0, replicate metadata_len 0)
    ∷ write_u8 0 (FlowScopeKind.as_u8 m.scope_kind)
    ∷ write_u8 1 (FlowUpdateReason.as_u8 m.update_reason)
    ∷ write_u8 2 (BackpressureLevel.as_u8 m.backpressure_level)
    ∷ write_u16 4 m.connection_credit
    ∷ write_u16 6 m.session_credit
    ∷ write_u16 8 m.operation_credit
    ∷ write_u64 12 m.operation_id
    ∷ write_u32 20 m.retry_after_ms
    ∷ write_u32 24 m.credit_epoch
    ∷ write_u32 28 m.flow_flags
    ∷ []

copy_fields : FlowUpdateMetadata → List ℕ → List ℕ
unfolding field_writes
copy_fields m destination = writes (field_writes m) destination

-- The buffer after the call, where it succeeds.
pub write : FlowUpdateMetadata → List ℕ → Result (List ℕ)
write m destination = do
  require_destination_len destination metadata_len
  validate_mask 32 m.flow_flags flags_known_mask
  ok (copy_fields m destination)

pub to_bytes : FlowUpdateMetadata → Result (List ℕ)
unfolding write copy_fields
to_bytes m = write m (replicate metadata_len 0)

abbrev pub retry_after_valid : ℕ
retry_after_valid = 0x2

is_flow_update : MessageType → Bool
is_flow_update MessageType.flow_update = true
is_flow_update _ = false

-- The `match` on the scope.
validate_scope : FlowUpdateMetadata → CommonHeader → FlowScopeKind → Result (Unit {0})
validate_scope m header FlowScopeKind.connection =
    reject_if
      (header.session_id != 0
        || m.session_credit != 0
        || m.operation_credit != 0
        || m.operation_id != 0)
      (invalid_protocol_combination
        "connection-scope FLOW_UPDATE requires header.session_id=0 and non-connection fields cleared")
validate_scope m header FlowScopeKind.session =
    reject_if
      (header.session_id == 0
        || m.connection_credit != 0
        || m.operation_credit != 0
        || m.operation_id != 0)
      (invalid_protocol_combination
        "session-scope FLOW_UPDATE requires header.session_id!=0 and non-session fields cleared")
validate_scope m header FlowScopeKind.operation =
    reject_if (header.session_id == 0 || m.operation_id == 0) (
      invalid_protocol_combination
        "operation-scope FLOW_UPDATE requires header.session_id!=0 and operation_id!=0")

unfoldable pub validate_routing : FlowUpdateMetadata → CommonHeader → Result (Unit {0})
unfolding is_flow_update validate_scope
validate_routing m header = do
  reject_if (not (is_flow_update header.message_type))
      (invalid_protocol_combination "FLOW_UPDATE routing validation requires a FLOW_UPDATE header")
  validate_scope m header m.scope_kind
  reject_if (m.retry_after_ms != 0 && bit_and m.flow_flags retry_after_valid == 0)
      (invalid_protocol_combination "FLOW_UPDATE retry_after_ms requires retry_after_valid flag")
