-- ===== src/Session/Open/RoundTrip.antt =====
-- What SessionOpenMetadata looks like on the wire, and that its `parse` and `write` agree on it.
use nnrp_rs.Enums.SessionPriorityClass.{SessionPriorityClass}
use nnrp_rs.Base.{
  ℕ, ◌≤◌, ◌<◌, ◌^◌, ◌≡◌, refl, ap, ◌∙◌, ◌↔◌, List, [], ◌∷◌, ◌++◌, arith, length, take, drop, All,
}
use nnrp_rs.Error.{ok}
use nnrp_rs.Enums.SessionPriorityClass
use nnrp_rs.Wire.{read_u16, read_u32, read_u64, validate_mask}
use nnrp_rs.Wire.Buffer.{byte_at, by_bytes}
use nnrp_rs.Wire.Little.{IsByte, from_le-to_le}
use nnrp_rs.Wire.Fields.{Field, octet, word, encode, fields_at, encode-fields_at}
use nnrp_rs.Wire.Codec.{Codec, parse_iff_write}
use nnrp_rs.Session.Open.{
  SessionOpenMetadata, metadata_len, flags_known_mask, copy_fields, read_fields, write, parse,
}

-- The fields fit their integer types.
pub record InRange (m : SessionOpenMetadata) : Type 0 where
  pub requested_session_id_fits : m.requested_session_id < 2 ^ 32
  pub profile_id_fits : m.profile_id < 2 ^ 16
  pub session_flags_fits : m.session_flags < 2 ^ 8
  pub schema_id_fits : m.schema_id < 2 ^ 32
  pub schema_version_fits : m.schema_version < 2 ^ 32
  pub default_deadline_ms_fits : m.default_deadline_ms < 2 ^ 32
  pub max_in_flight_operations_fits : m.max_in_flight_operations < 2 ^ 16
  pub lease_ttl_hint_ms_fits : m.lease_ttl_hint_ms < 2 ^ 32
  pub resume_token_bytes_fits : m.resume_token_bytes < 2 ^ 32
  pub auth_bytes_fits : m.auth_bytes < 2 ^ 32
  pub session_extension_bytes_fits : m.session_extension_bytes < 2 ^ 32
  pub client_session_tag_fits : m.client_session_tag < 2 ^ 64

abbrev pub widths : List ℕ
widths = 4 ∷ 2 ∷ 1 ∷ 1 ∷ 4 ∷ 4 ∷ 4 ∷ 2 ∷ 2 ∷ 4 ∷ 4 ∷ 4 ∷ 4 ∷ 8 ∷ []

-- The fields in their order; reserved ones are zero.
pub fields : SessionOpenMetadata → List Field
fields m =
    word 4 m.requested_session_id
    ∷ word 2 m.profile_id
    ∷ octet (SessionPriorityClass.as_u8 m.priority_class)
    ∷ octet m.session_flags
    ∷ word 4 m.schema_id
    ∷ word 4 m.schema_version
    ∷ word 4 m.default_deadline_ms
    ∷ word 2 m.max_in_flight_operations
    ∷ word 2 0
    ∷ word 4 m.lease_ttl_hint_ms
    ∷ word 4 m.resume_token_bytes
    ∷ word 4 m.auth_bytes
    ∷ word 4 m.session_extension_bytes
    ∷ word 8 m.client_session_tag
    ∷ []

pub layout : SessionOpenMetadata → List ℕ
unfolding fields
layout m = encode (fields m)

-- The checks that `parse` and `write` share.
abbrev pub IsKnown : SessionOpenMetadata → Type 0
IsKnown m = validate_mask 8 m.session_flags flags_known_mask ≡ ok tt

copy_fields-layout :
    (m : SessionOpenMetadata) (d : List ℕ)
    → metadata_len ≤ length d
    → copy_fields m d ≡ layout m ++ drop metadata_len d
unfolding copy_fields layout
copy_fields-layout m =
    by_bytes (λ d. copy_fields m d ≡ layout m ++ drop metadata_len d) metadata_len (λ v rest. refl)

-- When `write` succeeds, and with which buffer.
pub write_iff :
    (m : SessionOpenMetadata) (d b : List ℕ)
    → (write m d ≡ ok b)
      ↔ ((metadata_len ≤ length d) × IsKnown m × (b ≡ layout m ++ drop metadata_len d))
unfolding write
write_iff m d b =
    (λ e. ground (arith, copy_fields-layout m d), λ e. ground (arith, copy_fields-layout m d))

pub parse-layout :
    (m : SessionOpenMetadata) (rest : List ℕ)
    → InRange m
    → IsKnown m
    → parse (layout m ++ rest) ≡ ok m
unfolding parse read_fields layout byte_at read_u16 read_u32 read_u64
parse-layout m rest r known = ground (
  arith,
  from_le-to_le 4 m.requested_session_id,
  from_le-to_le 2 m.profile_id,
  SessionPriorityClass.try_from_u8-as_u8 m.priority_class,
  from_le-to_le 4 m.schema_id,
  from_le-to_le 4 m.schema_version,
  from_le-to_le 4 m.default_deadline_ms,
  from_le-to_le 2 m.max_in_flight_operations,
  from_le-to_le 4 m.lease_ttl_hint_ms,
  from_le-to_le 4 m.resume_token_bytes,
  from_le-to_le 4 m.auth_bytes,
  from_le-to_le 4 m.session_extension_bytes,
  from_le-to_le 8 m.client_session_tag,
  from_le-to_le 2 0,
)

-- What `parse` has checked and read when it succeeds.
record IsParsed (s : List ℕ) (m : SessionOpenMetadata) : Type 0 where
  long : metadata_len ≤ length s
  zero_at_22 : read_u16 s 22 ≡ 0
  known : validate_mask 8 (byte_at s 7) flags_known_mask ≡ ok tt
  priority_class : SessionPriorityClass
  priority_class_read : SessionPriorityClass.try_from_u8 (byte_at s 6) ≡ ok priority_class
  fields : m ≡ read_fields s priority_class

parse-IsParsed : (s : List ℕ) (m : SessionOpenMetadata) → parse s ≡ ok m → IsParsed s m
unfolding parse
parse-IsParsed s m e = ground arith

-- What `parse` returns has the fields that stand in the buffer.
parse-fields :
    (s : List ℕ) (m : SessionOpenMetadata)
    → parse s ≡ ok m
    → (metadata_len ≤ length s) × IsKnown m × (fields m ≡ fields_at widths 0 s)
unfolding read_fields fields read_u16 read_u32 read_u64
parse-fields s m e =
    let p : IsParsed s m = parse-IsParsed s m e in
    let code_priority_class =
      SessionPriorityClass.as_u8-try_from_u8 (byte_at s 6) p.priority_class_read in
    let zero_at_22 = p.zero_at_22 in
    (
      p.long,
      ap (λ m. validate_mask 8 m.session_flags flags_known_mask) p.fields ∙ p.known,
      ap fields p.fields ∙ cc,
    )

pub parse_sound :
    (s : List ℕ) (m : SessionOpenMetadata)
    → All IsByte s
    → parse s ≡ ok m
    → (metadata_len ≤ length s) × IsKnown m × (layout m ≡ take metadata_len s)
unfolding layout
parse_sound s m byte e =
    let (long, known, same) = parse-fields s m e in
    (long, known, ap encode same ∙ encode-fields_at widths 0 s byte long)

pub layout-size : (m : SessionOpenMetadata) → length (layout m) ≡ metadata_len
unfolding layout
layout-size m = refl

unfoldable pub codec : Codec SessionOpenMetadata
codec = record {
  size = metadata_len;
  parse = parse;
  write = write;
  IsInRange = InRange;
  IsKnown = IsKnown;
  layout = layout;
  layout_size = layout-size;
  write_iff = write_iff;
  parse_layout = parse-layout;
  parse_sound = parse_sound;
}

-- A buffer of bytes parses to a given SessionOpenMetadata, whose fields fit their integer types,
-- exactly when writing it over that buffer succeeds and changes nothing.
pub session_open_parse_iff_write :
    (s : List ℕ) (m : SessionOpenMetadata)
    → All IsByte s
    → InRange m
    → (parse s ≡ ok m) ↔ (write m s ≡ ok s)
unfolding codec
session_open_parse_iff_write = parse_iff_write codec
