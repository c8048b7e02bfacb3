-- ===== src/Schema/Descriptor/RoundTrip.antt =====
-- What SchemaDescriptorHeader looks like on the wire, and that its `parse` and `write` agree on it.
use nnrp_rs.Base.{
  ℕ, ◌≤◌, ◌<◌, ◌^◌, ◌≡◌, refl, ap, ◌∙◌, ◌↔◌, List, [], ◌∷◌, ◌++◌, arith, length, take, drop, All,
}
use nnrp_rs.Error.{ok}
use nnrp_rs.Wire.{read_u16, read_u32, read_u64, validate_mask}
use nnrp_rs.Wire.Buffer.{byte_at, by_bytes}
use nnrp_rs.Wire.Little.{IsByte, from_le-to_le}
use nnrp_rs.Wire.Fields.{Field, octet, word, encode, fields_at, encode-fields_at}
use nnrp_rs.Wire.Codec.{Codec, parse_iff_write}
use nnrp_rs.Schema.Descriptor.{
  SchemaDescriptorHeader, metadata_len, flags_known_mask, copy_fields, read_fields, write, parse,
}

-- The fields fit their integer types.
pub record InRange (m : SchemaDescriptorHeader) : Type 0 where
  pub schema_id_fits : m.schema_id < 2 ^ 32
  pub schema_version_fits : m.schema_version < 2 ^ 32
  pub profile_id_fits : m.profile_id < 2 ^ 16
  pub schema_flags_fits : m.schema_flags < 2 ^ 16
  pub min_version_major_fits : m.min_version_major < 2 ^ 8
  pub max_version_major_fits : m.max_version_major < 2 ^ 8
  pub body_bytes_fits : m.body_bytes < 2 ^ 32
  pub dependency_count_fits : m.dependency_count < 2 ^ 16
  pub default_stream_semantics_fits : m.default_stream_semantics < 2 ^ 16
  pub schema_hash_fits : m.schema_hash < 2 ^ 64

abbrev pub widths : List ℕ
widths = 4 ∷ 4 ∷ 2 ∷ 2 ∷ 1 ∷ 1 ∷ 2 ∷ 4 ∷ 2 ∷ 2 ∷ 8 ∷ []

-- The fields in their order; reserved ones are zero.
pub fields : SchemaDescriptorHeader → List Field
fields m =
    word 4 m.schema_id
    ∷ word 4 m.schema_version
    ∷ word 2 m.profile_id
    ∷ word 2 m.schema_flags
    ∷ octet m.min_version_major
    ∷ octet m.max_version_major
    ∷ word 2 0
    ∷ word 4 m.body_bytes
    ∷ word 2 m.dependency_count
    ∷ word 2 m.default_stream_semantics
    ∷ word 8 m.schema_hash
    ∷ []

pub layout : SchemaDescriptorHeader → List ℕ
unfolding fields
layout m = encode (fields m)

-- The checks that `parse` and `write` share.
abbrev pub IsKnown : SchemaDescriptorHeader → Type 0
IsKnown m = validate_mask 16 m.schema_flags flags_known_mask ≡ ok tt

copy_fields-layout :
    (m : SchemaDescriptorHeader) (d : List ℕ)
    → metadata_len ≤ length d
    → copy_fields m d ≡ layout m ++ drop metadata_len d
unfolding copy_fields layout
copy_fields-layout m =
    by_bytes (λ d. copy_fields m d ≡ layout m ++ drop metadata_len d) metadata_len (λ v rest. refl)

-- When `write` succeeds, and with which buffer.
pub write_iff :
    (m : SchemaDescriptorHeader) (d b : List ℕ)
    → (write m d ≡ ok b)
      ↔ ((metadata_len ≤ length d) × IsKnown m × (b ≡ layout m ++ drop metadata_len d))
unfolding write
write_iff m d b =
    (λ e. ground (arith, copy_fields-layout m d), λ e. ground (arith, copy_fields-layout m d))

pub parse-layout :
    (m : SchemaDescriptorHeader) (rest : List ℕ)
    → InRange m
    → IsKnown m
    → parse (layout m ++ rest) ≡ ok m
unfolding parse read_fields layout byte_at read_u16 read_u32 read_u64
parse-layout m rest r known = ground (
  arith,
  from_le-to_le 4 m.schema_id,
  from_le-to_le 4 m.schema_version,
  from_le-to_le 2 m.profile_id,
  from_le-to_le 2 m.schema_flags,
  from_le-to_le 4 m.body_bytes,
  from_le-to_le 2 m.dependency_count,
  from_le-to_le 2 m.default_stream_semantics,
  from_le-to_le 8 m.schema_hash,
  from_le-to_le 2 0,
)

-- What `parse` returns has the fields that stand in the buffer.
parse-fields :
    (s : List ℕ) (m : SchemaDescriptorHeader)
    → parse s ≡ ok m
    → (metadata_len ≤ length s) × IsKnown m × (fields m ≡ fields_at widths 0 s)
unfolding parse read_fields fields read_u16 read_u32 read_u64
parse-fields s m e = (ground arith, ground arith, ground (arith))

pub parse_sound :
    (s : List ℕ) (m : SchemaDescriptorHeader)
    → All IsByte s
    → parse s ≡ ok m
    → (metadata_len ≤ length s) × IsKnown m × (layout m ≡ take metadata_len s)
unfolding layout
parse_sound s m byte e =
    let (long, known, same) = parse-fields s m e in
    (long, known, ap encode same ∙ encode-fields_at widths 0 s byte long)

pub layout-size : (m : SchemaDescriptorHeader) → length (layout m) ≡ metadata_len
unfolding layout
layout-size m = refl

unfoldable pub codec : Codec SchemaDescriptorHeader
codec = record {
  size = metadata_len;
  parse = parse;
  write = write;
  IsInRange = InRange;
  IsKnown = IsKnown;
  layout = layout;
  layout_size = layout-size;
  write_iff = write_iff;
  parse_layout = parse-layout;
  parse_sound = parse_sound;
}

-- A buffer of bytes parses to a given SchemaDescriptorHeader, whose fields fit their integer types,
-- exactly when writing it over that buffer succeeds and changes nothing.
pub schema_descriptor_parse_iff_write :
    (s : List ℕ) (m : SchemaDescriptorHeader)
    → All IsByte s
    → InRange m
    → (parse s ≡ ok m) ↔ (write m s ≡ ok s)
unfolding codec
schema_descriptor_parse_iff_write = parse_iff_write codec
