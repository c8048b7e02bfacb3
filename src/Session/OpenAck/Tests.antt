-- ===== src/Session/OpenAck/Tests.antt =====
-- The metadata of SessionOpenAckMetadata on the wire, at one value.
use nnrp_rs.Base.{ℕ, ◌≡◌, refl, List, [], ◌∷◌, replicate}
use nnrp_rs.Error.{ok}
use nnrp_rs.Enums.SessionPriorityClass
use nnrp_rs.Enums.SessionPriorityClass.{SessionPriorityClass}
use nnrp_rs.Enums.SessionStatus
use nnrp_rs.Enums.SessionStatus.{SessionStatus}
use nnrp_rs.Wire.Little.{IsByte}
use nnrp_rs.Session.OpenAck.{SessionOpenAckMetadata, parse, write, copy_fields, read_fields}

abbrev example : SessionOpenAckMetadata
example = record {
  session_id = 514;
  accepted_profile_id = 3;
  accepted_priority_class = SessionPriorityClass.background;
  session_status = SessionStatus.resumed;
  schema_id = 260;
  schema_version = 517;
  granted_operation_credit = 6;
  max_in_flight_operations = 263;
  lease_ttl_ms = 520;
  resume_window_ms = 9;
  resume_token_bytes = 266;
  session_extension_bytes = 523;
  server_session_tag = 12;
  route_scope_id = 269;
  session_error_code = 526;
  session_flags_ack = 1;
}

abbrev example_bytes : List ℕ
example_bytes =
    2 ∷ 2 ∷ 0 ∷ 0 ∷ 3 ∷ 0 ∷ 2 ∷ 3 ∷ 4 ∷ 1 ∷ 0 ∷ 0 ∷ 5 ∷ 2 ∷ 0 ∷ 0 ∷ 6 ∷ 0 ∷ 7 ∷ 1 ∷ 8 ∷ 2 ∷ 0 ∷ 0
    ∷ 9 ∷ 0 ∷ 0 ∷ 0 ∷ 10 ∷ 1 ∷ 0 ∷ 0 ∷ 11 ∷ 2 ∷ 0 ∷ 0 ∷ 12 ∷ 0 ∷ 0 ∷ 0 ∷ 0 ∷ 0 ∷ 0 ∷ 0 ∷ 13 ∷ 1 ∷ 0
    ∷ 0 ∷ 14 ∷ 2 ∷ 0 ∷ 0 ∷ 1 ∷ 0 ∷ 0 ∷ 0 ∷ []

example_written : write example (replicate 56 0xff) ≡ ok example_bytes
unfolding write copy_fields nnrp_rs.Wire.validate_mask SessionPriorityClass.as_u8
    SessionStatus.as_u8
example_written = refl

example_parsed : parse example_bytes ≡ ok example
unfolding parse read_fields nnrp_rs.Wire.validate_mask nnrp_rs.Wire.read_u32
    nnrp_rs.Wire.Little.from_le SessionPriorityClass.try_from_u8 nnrp_rs.Wire.Buffer.byte_at
    SessionStatus.try_from_u8 nnrp_rs.Wire.read_u16 nnrp_rs.Wire.read_u64
example_parsed = refl
