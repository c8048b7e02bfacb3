-- ===== src/Session/Open.antt =====
-- crates/nnrp-core/src/session.rs: the metadata of SESSION_OPEN.
pub mod RoundTrip
mod Tests
use nnrp_rs.Base.{ℕ, List, [], ◌∷◌, replicate}
use nnrp_rs.Error.{Result, ok, ◌>>=◌, ◌>>◌}
use nnrp_rs.Enums.SessionPriorityClass
use nnrp_rs.Enums.SessionPriorityClass.{SessionPriorityClass}
use nnrp_rs.Wire.{
  Write, writes, write_u8, write_u16, write_u32, write_u64, read_u16, read_u32, read_u64,
  require_len, require_destination_len, validate_zero, validate_mask,
}
use nnrp_rs.Wire.Buffer.{byte_at}

abbrev pub metadata_len : ℕ
metadata_len = 48

abbrev pub flags_known_mask : ℕ
flags_known_mask = 0xf

pub record SessionOpenMetadata : Type 0 where
  pub requested_session_id : ℕ
  pub profile_id : ℕ
  pub priority_class : SessionPriorityClass
  pub session_flags : ℕ
  pub schema_id : ℕ
  pub schema_version : ℕ
  pub default_deadline_ms : ℕ
  pub max_in_flight_operations : ℕ
  pub lease_ttl_hint_ms : ℕ
  pub resume_token_bytes : ℕ
  pub auth_bytes : ℕ
  pub session_extension_bytes : ℕ
  pub client_session_tag : ℕ

-- The literal that `parse` ends with.
pub read_fields : List ℕ → SessionPriorityClass → SessionOpenMetadata
read_fields source priority_class = record {
  requested_session_id = read_u32 source 0;
  profile_id = read_u16 source 4;
  priority_class = priority_class;
  session_flags = byte_at source 7;
  schema_id = read_u32 source 8;
  schema_version = read_u32 source 12;
  default_deadline_ms = read_u32 source 16;
  max_in_flight_operations = read_u16 source 20;
  lease_ttl_hint_ms = read_u32 source 24;
  resume_token_bytes = read_u32 source 28;
  auth_bytes = read_u32 source 32;
  session_extension_bytes = read_u32 source 36;
  client_session_tag = read_u64 source 40;
}

pub parse : List ℕ → Result SessionOpenMetadata
parse source = do
  require_len source metadata_len
  validate_zero "session_open.reserved0" (read_u16 source 22)
  validate_mask 8 (byte_at source 7) flags_known_mask
  priority_class ← SessionPriorityClass.try_from_u8 (byte_at source 6)
  ok (read_fields source priority_class)

-- The writes of `write`, in order.
field_writes : SessionOpenMetadata → List Write
field_writes m =
    (0, replicate metadata_len 0)
    ∷ write_u32 0 m.requested_session_id
    ∷ write_u16 4 m.profile_id
    ∷ write_u8 6 (SessionPriorityClass.as_u8 m.priority_class)
    ∷ write_u8 7 m.session_flags
    ∷ write_u32 8 m.schema_id
    ∷ write_u32 12 m.schema_version
    ∷ write_u32 16 m.default_deadline_ms
    ∷ write_u16 20 m.max_in_flight_operations
    ∷ write_u32 24 m.lease_ttl_hint_ms
    ∷ write_u32 28 m.resume_token_bytes
    ∷ write_u32 32 m.auth_bytes
    ∷ write_u32 36 m.session_extension_bytes
    ∷ write_u64 40 m.client_session_tag
    ∷ []

copy_fields : SessionOpenMetadata → List ℕ → List ℕ
unfolding field_writes
copy_fields m destination = writes (field_writes m) destination

-- The buffer after the call, where it succeeds.
pub write : SessionOpenMetadata → List ℕ → Result (List ℕ)
write m destination = do
  require_destination_len destination metadata_len
  validate_mask 8 m.session_flags flags_known_mask
  ok (copy_fields m destination)

pub to_bytes : SessionOpenMetadata → Result (List ℕ)
unfolding write copy_fields
to_bytes m = write m (replicate metadata_len 0)
