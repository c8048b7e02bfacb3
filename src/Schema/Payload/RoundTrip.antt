-- ===== src/Schema/Payload/RoundTrip.antt =====
-- What TypedPayloadDescriptor looks like on the wire, and that its `parse` and `write` agree on it.
use nnrp_rs.Base.{
  ℕ, ◌≤◌, ◌<◌, ◌^◌, ◌≡◌, refl, ap, ◌∙◌, ◌↔◌, List, [], ◌∷◌, ◌++◌, arith, length, take, drop, All,
}
use nnrp_rs.Error.{ok}
use nnrp_rs.Enums.PayloadKind
use nnrp_rs.Wire.{read_u16, read_u32, read_u64, validate_mask}
use nnrp_rs.Wire.Buffer.{byte_at, by_bytes}
use nnrp_rs.Wire.Little.{IsByte, from_le-to_le}
use nnrp_rs.Wire.Fields.{Field, octet, word, encode, fields_at, encode-fields_at}
use nnrp_rs.Wire.Codec.{Codec, parse_iff_write}
use nnrp_rs.Schema.Payload.{
  TypedPayloadDescriptor, metadata_len, flags_known_mask, copy_fields, read_fields, write, parse,
}

-- The fields fit their integer types.
pub record InRange (m : TypedPayloadDescriptor) : Type 0 where
  pub profile_id_fits : m.profile_id < 2 ^ 16
  pub descriptor_flags_fits : m.descriptor_flags < 2 ^ 8
  pub schema_id_fits : m.schema_id < 2 ^ 32
  pub schema_version_fits : m.schema_version < 2 ^ 32
  pub stream_semantics_fits : m.stream_semantics < 2 ^ 16
  pub offset_fits : m.offset < 2 ^ 32
  pub length_fits : m.length < 2 ^ 32

abbrev pub widths : List ℕ
widths = 2 ∷ 1 ∷ 1 ∷ 4 ∷ 4 ∷ 2 ∷ 2 ∷ 4 ∷ 4 ∷ []

-- The fields in their order; reserved ones are zero.
pub fields : TypedPayloadDescriptor → List Field
fields m =
    word 2 m.profile_id
    ∷ octet (PayloadKind.as_u8 m.payload_kind)
    ∷ octet m.descriptor_flags
    ∷ word 4 m.schema_id
    ∷ word 4 m.schema_version
    ∷ word 2 m.stream_semantics
    ∷ word 2 0
    ∷ word 4 m.offset
    ∷ word 4 m.length
    ∷ []

pub layout : TypedPayloadDescriptor → List ℕ
unfolding fields
layout m = encode (fields m)

-- The checks that `parse` and `write` share.
abbrev pub IsKnown : TypedPayloadDescriptor → Type 0
IsKnown m = validate_mask 8 m.descriptor_flags flags_known_mask ≡ ok tt

copy_fields-layout :
    (m : TypedPayloadDescriptor) (d : List ℕ)
    → metadata_len ≤ length d
    → copy_fields m d ≡ layout m ++ drop metadata_len d
unfolding copy_fields layout
copy_fields-layout m =
    by_bytes (λ d. copy_fields m d ≡ layout m ++ drop metadata_len d) metadata_len (λ v rest. refl)

-- When `write` succeeds, and with which buffer.
pub write_iff :
    (m : TypedPayloadDescriptor) (d b : List ℕ)
    → (write m d ≡ ok b)
      ↔ ((metadata_len ≤ length d) × IsKnown m × (b ≡ layout m ++ drop metadata_len d))
unfolding write
write_iff m d b =
    (λ e. ground (arith, copy_fields-layout m d), λ e. ground (arith, copy_fields-layout m d))

pub parse-layout :
    (m : TypedPayloadDescriptor) (rest : List ℕ)
    → InRange m
    → IsKnown m
    → parse (layout m ++ rest) ≡ ok m
unfolding parse read_fields layout byte_at read_u16 read_u32 read_u64
parse-layout m rest r known = ground (
  arith,
  from_le-to_le 2 m.profile_id,
  PayloadKind.try_from_bit-as_u8 m.payload_kind,
  from_le-to_le 4 m.schema_id,
  from_le-to_le 4 m.schema_version,
  from_le-to_le 2 m.stream_semantics,
  from_le-to_le 4 m.offset,
  from_le-to_le 4 m.length,
  from_le-to_le 2 0,
)

-- What `parse` returns has the fields that stand in the buffer.
parse-fields :
    (s : List ℕ) (m : TypedPayloadDescriptor)
    → parse s ≡ ok m
    → (metadata_len ≤ length s) × IsKnown m × (fields m ≡ fields_at widths 0 s)
unfolding parse read_fields fields read_u16 read_u32 read_u64
parse-fields s m e = (
  ground arith,
  ground arith,
  ground (arith, PayloadKind.as_u8-try_from_bit (byte_at s 2) {t = m.payload_kind}),
)

pub parse_sound :
    (s : List ℕ) (m : TypedPayloadDescriptor)
    → All IsByte s
    → parse s ≡ ok m
    → (metadata_len ≤ length s) × IsKnown m × (layout m ≡ take metadata_len s)
unfolding layout
parse_sound s m byte e =
    let (long, known, same) = parse-fields s m e in
    (long, known, ap encode same ∙ encode-fields_at widths 0 s byte long)

pub layout-size : (m : TypedPayloadDescriptor) → length (layout m) ≡ metadata_len
unfolding layout
layout-size m = refl

unfoldable pub codec : Codec TypedPayloadDescriptor
codec = record {
  size = metadata_len;
  parse = parse;
  write = write;
  IsInRange = InRange;
  IsKnown = IsKnown;
  layout = layout;
  layout_size = layout-size;
  write_iff = write_iff;
  parse_layout = parse-layout;
  parse_sound = parse_sound;
}

-- A buffer of bytes parses to a given TypedPayloadDescriptor, whose fields fit their integer types,
-- exactly when writing it over that buffer succeeds and changes nothing.
pub typed_payload_parse_iff_write :
    (s : List ℕ) (m : TypedPayloadDescriptor)
    → All IsByte s
    → InRange m
    → (parse s ≡ ok m) ↔ (write m s ≡ ok s)
unfolding codec
typed_payload_parse_iff_write = parse_iff_write codec
