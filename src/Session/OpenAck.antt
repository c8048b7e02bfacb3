-- ===== src/Session/OpenAck.antt =====
-- crates/nnrp-core/src/session.rs: the metadata of SESSION_OPEN_ACK.
pub mod RoundTrip
mod Tests
use nnrp_rs.Base.{ℕ, List, [], ◌∷◌, replicate}
use nnrp_rs.Error.{Result, ok, ◌>>=◌, ◌>>◌}
use nnrp_rs.Enums.SessionPriorityClass
use nnrp_rs.Enums.SessionPriorityClass.{SessionPriorityClass}
use nnrp_rs.Enums.SessionStatus
use nnrp_rs.Enums.SessionStatus.{SessionStatus}
use nnrp_rs.Wire.{
  Write, writes, write_u8, write_u16, write_u32, write_u64, read_u16, read_u32, read_u64,
  require_len, require_destination_len, validate_mask,
}
use nnrp_rs.Wire.Buffer.{byte_at}

abbrev pub metadata_len : ℕ
metadata_len = 56

abbrev pub flags_ack_known_mask : ℕ
flags_ack_known_mask = 0x1f

pub record SessionOpenAckMetadata : Type 0 where
  pub session_id : ℕ
  pub accepted_profile_id : ℕ
  pub accepted_priority_class : SessionPriorityClass
  pub session_status : SessionStatus
  pub schema_id : ℕ
  pub schema_version : ℕ
  pub granted_operation_credit : ℕ
  pub max_in_flight_operations : ℕ
  pub lease_ttl_ms : ℕ
  pub resume_window_ms : ℕ
  pub resume_token_bytes : ℕ
  pub session_extension_bytes : ℕ
  pub server_session_tag : ℕ
  pub route_scope_id : ℕ
  pub session_error_code : ℕ
  pub session_flags_ack : ℕ

-- The literal that `parse` ends with.
pub read_fields : List ℕ → SessionPriorityClass → SessionStatus → SessionOpenAckMetadata
read_fields source accepted_priority_class session_status = record {
  session_id = read_u32 source 0;
  accepted_profile_id = read_u16 source 4;
  accepted_priority_class = accepted_priority_class;
  session_status = session_status;
  schema_id = read_u32 source 8;
  schema_version = read_u32 source 12;
  granted_operation_credit = read_u16 source 16;
  max_in_flight_operations = read_u16 source 18;
  lease_ttl_ms = read_u32 source 20;
  resume_window_ms = read_u32 source 24;
  resume_token_bytes = read_u32 source 28;
  session_extension_bytes = read_u32 source 32;
  server_session_tag = read_u64 source 36;
  route_scope_id = read_u32 source 44;
  session_error_code = read_u32 source 48;
  session_flags_ack = read_u32 source 52;
}

pub parse : List ℕ → Result SessionOpenAckMetadata
parse source = do
  require_len source metadata_len
  validate_mask 32 (read_u32 source 52) flags_ack_known_mask
  accepted_priority_class ← SessionPriorityClass.try_from_u8 (byte_at source 6)
  session_status ← SessionStatus.try_from_u8 (byte_at source 7)
  ok (read_fields source accepted_priority_class session_status)

-- The writes of `write`, in order.
field_writes : SessionOpenAckMetadata → List Write
field_writes m =
    (0, replicate metadata_len 0)
    ∷ write_u32 0 m.session_id
    ∷ write_u16 4 m.accepted_profile_id
    ∷ write_u8 6 (SessionPriorityClass.as_u8 m.accepted_priority_class)
    ∷ write_u8 7 (SessionStatus.as_u8 m.session_status)
    ∷ write_u32 8 m.schema_id
    ∷ write_u32 12 m.schema_version
    ∷ write_u16 16 m.granted_operation_credit
    ∷ write_u16 18 m.max_in_flight_operations
    ∷ write_u32 20 m.lease_ttl_ms
    ∷ write_u32 24 m.resume_window_ms
    ∷ write_u32 28 m.resume_token_bytes
    ∷ write_u32 32 m.session_extension_bytes
    ∷ write_u64 36 m.server_session_tag
    ∷ write_u32 44 m.route_scope_id
    ∷ write_u32 48 m.session_error_code
    ∷ write_u32 52 m.session_flags_ack
    ∷ []

copy_fields : SessionOpenAckMetadata → List ℕ → List ℕ
unfolding field_writes
copy_fields m destination = writes (field_writes m) destination

-- The buffer after the call, where it succeeds.
pub write : SessionOpenAckMetadata → List ℕ → Result (List ℕ)
write m destination = do
  require_destination_len destination metadata_len
  validate_mask 32 m.session_flags_ack flags_ack_known_mask
  ok (copy_fields m destination)

pub to_bytes : SessionOpenAckMetadata → Result (List ℕ)
unfolding write copy_fields
to_bytes m = write m (replicate metadata_len 0)
