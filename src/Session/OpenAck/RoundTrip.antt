-- ===== src/Session/OpenAck/RoundTrip.antt =====
-- What SessionOpenAckMetadata looks like on the wire, and that its `parse` and `write` agree on it.
use nnrp_rs.Base.{
  ℕ, ◌≤◌, ◌<◌, ◌^◌, ◌≡◌, refl, ap, ◌∙◌, ◌↔◌, List, [], ◌∷◌, ◌++◌, arith, length, take, drop, All,
}
use nnrp_rs.Error.{ok}
use nnrp_rs.Enums.SessionPriorityClass
use nnrp_rs.Enums.SessionStatus
use nnrp_rs.Wire.{read_u16, read_u32, read_u64, validate_mask}
use nnrp_rs.Wire.Buffer.{byte_at, by_bytes}
use nnrp_rs.Wire.Little.{IsByte, from_le-to_le}
use nnrp_rs.Wire.Fields.{Field, octet, word, encode, fields_at, encode-fields_at}
use nnrp_rs.Wire.Codec.{Codec, parse_iff_write}
use nnrp_rs.Session.OpenAck.{
  SessionOpenAckMetadata, metadata_len, flags_ack_known_mask, copy_fields, read_fields, write,
  parse, flags_ack_known_mask,
}

-- The fields fit their integer types.
pub record InRange (m : SessionOpenAckMetadata) : Type 0 where
  pub session_id_fits : m.session_id < 2 ^ 32
  pub accepted_profile_id_fits : m.accepted_profile_id < 2 ^ 16
  pub schema_id_fits : m.schema_id < 2 ^ 32
  pub schema_version_fits : m.schema_version < 2 ^ 32
  pub granted_operation_credit_fits : m.granted_operation_credit < 2 ^ 16
  pub max_in_flight_operations_fits : m.max_in_flight_operations < 2 ^ 16
  pub lease_ttl_ms_fits : m.lease_ttl_ms < 2 ^ 32
  pub resume_window_ms_fits : m.resume_window_ms < 2 ^ 32
  pub resume_token_bytes_fits : m.resume_token_bytes < 2 ^ 32
  pub session_extension_bytes_fits : m.session_extension_bytes < 2 ^ 32
  pub server_session_tag_fits : m.server_session_tag < 2 ^ 64
  pub route_scope_id_fits : m.route_scope_id < 2 ^ 32
  pub session_error_code_fits : m.session_error_code < 2 ^ 32
  pub session_flags_ack_fits : m.session_flags_ack < 2 ^ 32

abbrev pub widths : List ℕ
widths = 4 ∷ 2 ∷ 1 ∷ 1 ∷ 4 ∷ 4 ∷ 2 ∷ 2 ∷ 4 ∷ 4 ∷ 4 ∷ 4 ∷ 8 ∷ 4 ∷ 4 ∷ 4 ∷ []

-- The fields in their order.
pub fields : SessionOpenAckMetadata → List Field
fields m =
    word 4 m.session_id
    ∷ word 2 m.accepted_profile_id
    ∷ octet (SessionPriorityClass.as_u8 m.accepted_priority_class)
    ∷ octet (SessionStatus.as_u8 m.session_status)
    ∷ word 4 m.schema_id
    ∷ word 4 m.schema_version
    ∷ word 2 m.granted_operation_credit
    ∷ word 2 m.max_in_flight_operations
    ∷ word 4 m.lease_ttl_ms
    ∷ word 4 m.resume_window_ms
    ∷ word 4 m.resume_token_bytes
    ∷ word 4 m.session_extension_bytes
    ∷ word 8 m.server_session_tag
    ∷ word 4 m.route_scope_id
    ∷ word 4 m.session_error_code
    ∷ word 4 m.session_flags_ack
    ∷ []

pub layout : SessionOpenAckMetadata → List ℕ
unfolding fields
layout m = encode (fields m)

-- The checks that `parse` and `write` share.
abbrev pub IsKnown : SessionOpenAckMetadata → Type 0
IsKnown m = validate_mask 32 m.session_flags_ack flags_ack_known_mask ≡ ok tt

copy_fields-layout :
    (m : SessionOpenAckMetadata) (d : List ℕ)
    → metadata_len ≤ length d
    → copy_fields m d ≡ layout m ++ drop metadata_len d
unfolding copy_fields layout
copy_fields-layout m =
    by_bytes (λ d. copy_fields m d ≡ layout m ++ drop metadata_len d) metadata_len (λ v rest. refl)

-- When `write` succeeds, and with which buffer.
pub write_iff :
    (m : SessionOpenAckMetadata) (d b : List ℕ)
    → (write m d ≡ ok b)
      ↔ ((metadata_len ≤ length d) × IsKnown m × (b ≡ layout m ++ drop metadata_len d))
unfolding write
write_iff m d b =
    (λ e. ground (arith, copy_fields-layout m d), λ e. ground (arith, copy_fields-layout m d))

pub parse-layout :
    (m : SessionOpenAckMetadata) (rest : List ℕ)
    → InRange m
    → IsKnown m
    → parse (layout m ++ rest) ≡ ok m
unfolding parse read_fields layout byte_at read_u16 read_u32 read_u64
parse-layout m rest r known = ground (
  arith,
  from_le-to_le 4 m.session_id,
  from_le-to_le 2 m.accepted_profile_id,
  SessionPriorityClass.try_from_u8-as_u8 m.accepted_priority_class,
  SessionStatus.try_from_u8-as_u8 m.session_status,
  from_le-to_le 4 m.schema_id,
  from_le-to_le 4 m.schema_version,
  from_le-to_le 2 m.granted_operation_credit,
  from_le-to_le 2 m.max_in_flight_operations,
  from_le-to_le 4 m.lease_ttl_ms,
  from_le-to_le 4 m.resume_window_ms,
  from_le-to_le 4 m.resume_token_bytes,
  from_le-to_le 4 m.session_extension_bytes,
  from_le-to_le 8 m.server_session_tag,
  from_le-to_le 4 m.route_scope_id,
  from_le-to_le 4 m.session_error_code,
  from_le-to_le 4 m.session_flags_ack,
)

-- What `parse` returns has the fields that stand in the buffer.
parse-fields :
    (s : List ℕ) (m : SessionOpenAckMetadata)
    → parse s ≡ ok m
    → (metadata_len ≤ length s) × IsKnown m × (fields m ≡ fields_at widths 0 s)
unfolding parse read_fields fields read_u16 read_u32 read_u64
parse-fields s m e = (
  ground arith,
  ground arith,
  ground (
    arith,
    SessionPriorityClass.as_u8-try_from_u8 (byte_at s 6) {t = m.accepted_priority_class},
    SessionStatus.as_u8-try_from_u8 (byte_at s 7) {t = m.session_status},
  ),
)

pub parse_sound :
    (s : List ℕ) (m : SessionOpenAckMetadata)
    → All IsByte s
    → parse s ≡ ok m
    → (metadata_len ≤ length s) × IsKnown m × (layout m ≡ take metadata_len s)
unfolding layout
parse_sound s m byte e =
    let (long, known, same) = parse-fields s m e in
    (long, known, ap encode same ∙ encode-fields_at widths 0 s byte long)

pub layout-size : (m : SessionOpenAckMetadata) → length (layout m) ≡ metadata_len
unfolding layout
layout-size m = refl

unfoldable pub codec : Codec SessionOpenAckMetadata
codec = record {
  size = metadata_len;
  parse = parse;
  write = write;
  IsInRange = InRange;
  IsKnown = IsKnown;
  layout = layout;
  layout_size = layout-size;
  write_iff = write_iff;
  parse_layout = parse-layout;
  parse_sound = parse_sound;
}

-- A buffer of bytes parses to a given SessionOpenAckMetadata, whose fields fit their integer types,
-- exactly when writing it over that buffer succeeds and changes nothing.
pub session_open_ack_parse_iff_write :
    (s : List ℕ) (m : SessionOpenAckMetadata)
    → All IsByte s
    → InRange m
    → (parse s ≡ ok m) ↔ (write m s ≡ ok s)
unfolding codec
session_open_ack_parse_iff_write = parse_iff_write codec
