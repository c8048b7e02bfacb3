-- ===== src/Session/Open/Tests.antt =====
-- The metadata of SessionOpenMetadata on the wire, at one value.
use nnrp_rs.Base.{ℕ, ◌≡◌, refl, List, [], ◌∷◌, replicate}
use nnrp_rs.Error.{ok}
use nnrp_rs.Enums.SessionPriorityClass
use nnrp_rs.Enums.SessionPriorityClass.{SessionPriorityClass}
use nnrp_rs.Wire.Little.{IsByte}
use nnrp_rs.Session.Open.{SessionOpenMetadata, parse, write, copy_fields, read_fields}

abbrev example : SessionOpenMetadata
example = record {
  requested_session_id = 514;
  profile_id = 3;
  priority_class = SessionPriorityClass.background;
  session_flags = 1;
  schema_id = 260;
  schema_version = 517;
  default_deadline_ms = 6;
  max_in_flight_operations = 263;
  lease_ttl_hint_ms = 520;
  resume_token_bytes = 9;
  auth_bytes = 266;
  session_extension_bytes = 523;
  client_session_tag = 12;
}

abbrev example_bytes : List ℕ
example_bytes =
    2 ∷ 2 ∷ 0 ∷ 0 ∷ 3 ∷ 0 ∷ 2 ∷ 1 ∷ 4 ∷ 1 ∷ 0 ∷ 0 ∷ 5 ∷ 2 ∷ 0 ∷ 0 ∷ 6 ∷ 0 ∷ 0 ∷ 0 ∷ 7 ∷ 1 ∷ 0 ∷ 0
    ∷ 8 ∷ 2 ∷ 0 ∷ 0 ∷ 9 ∷ 0 ∷ 0 ∷ 0 ∷ 10 ∷ 1 ∷ 0 ∷ 0 ∷ 11 ∷ 2 ∷ 0 ∷ 0 ∷ 12 ∷ 0 ∷ 0 ∷ 0 ∷ 0 ∷ 0 ∷ 0
    ∷ 0 ∷ []

example_written : write example (replicate 48 0xff) ≡ ok example_bytes
unfolding write copy_fields nnrp_rs.Wire.validate_mask SessionPriorityClass.as_u8
example_written = refl

example_parsed : parse example_bytes ≡ ok example
unfolding parse read_fields nnrp_rs.Wire.read_u16 nnrp_rs.Wire.Little.from_le
    nnrp_rs.Wire.validate_mask nnrp_rs.Wire.Buffer.byte_at SessionPriorityClass.try_from_u8
    nnrp_rs.Wire.read_u32 nnrp_rs.Wire.read_u64
example_parsed = refl
