-- ===== src/Control/Supersede/RoundTrip.antt =====
-- What SupersedeMetadata looks like on the wire, and that its `parse` and `write` agree on it.
use nnrp_rs.Base.{
  ℕ, ◌≤◌, ◌<◌, ◌^◌, ◌≡◌, refl, ap, ◌∙◌, ◌↔◌, List, [], ◌∷◌, ◌++◌, arith, length, take, drop, All,
}
use nnrp_rs.Error.{ok}
use nnrp_rs.Wire.{read_u16, read_u32, read_u64, validate_mask}
use nnrp_rs.Wire.Buffer.{byte_at, by_bytes}
use nnrp_rs.Wire.Little.{IsByte, from_le-to_le}
use nnrp_rs.Wire.Fields.{Field, word, encode, fields_at, encode-fields_at}
use nnrp_rs.Wire.Codec.{Codec, parse_iff_write}
use nnrp_rs.Control.Supersede.{
  SupersedeMetadata, metadata_len, flags_known_mask, copy_fields, read_fields, write, parse,
}

-- The fields fit their integer types.
pub record InRange (m : SupersedeMetadata) : Type 0 where
  pub old_operation_id_fits : m.old_operation_id < 2 ^ 64
  pub new_operation_id_fits : m.new_operation_id < 2 ^ 64
  pub control_sequence_fits : m.control_sequence < 2 ^ 64
  pub drop_reason_code_fits : m.drop_reason_code < 2 ^ 16
  pub flags_fits : m.flags < 2 ^ 16
  pub diagnostic_bytes_fits : m.diagnostic_bytes < 2 ^ 32

abbrev pub widths : List ℕ
widths = 8 ∷ 8 ∷ 8 ∷ 2 ∷ 2 ∷ 4 ∷ []

-- The fields in their order.
pub fields : SupersedeMetadata → List Field
fields m =
    word 8 m.old_operation_id
    ∷ word 8 m.new_operation_id
    ∷ word 8 m.control_sequence
    ∷ word 2 m.drop_reason_code
    ∷ word 2 m.flags
    ∷ word 4 m.diagnostic_bytes
    ∷ []

pub layout : SupersedeMetadata → List ℕ
unfolding fields
layout m = encode (fields m)

-- The checks that `parse` and `write` share.
abbrev pub IsKnown : SupersedeMetadata → Type 0
IsKnown m = validate_mask 16 m.flags flags_known_mask ≡ ok tt

copy_fields-layout :
    (m : SupersedeMetadata) (d : List ℕ)
    → metadata_len ≤ length d
    → copy_fields m d ≡ layout m ++ drop metadata_len d
unfolding copy_fields layout
copy_fields-layout m =
    by_bytes (λ d. copy_fields m d ≡ layout m ++ drop metadata_len d) metadata_len (λ v rest. refl)

-- When `write` succeeds, and with which buffer.
pub write_iff :
    (m : SupersedeMetadata) (d b : List ℕ)
    → (write m d ≡ ok b)
      ↔ ((metadata_len ≤ length d) × IsKnown m × (b ≡ layout m ++ drop metadata_len d))
unfolding write
write_iff m d b =
    (λ e. ground (arith, copy_fields-layout m d), λ e. ground (arith, copy_fields-layout m d))

pub parse-layout :
    (m : SupersedeMetadata) (rest : List ℕ)
    → InRange m
    → IsKnown m
    → parse (layout m ++ rest) ≡ ok m
unfolding parse read_fields layout byte_at read_u16 read_u32 read_u64
parse-layout m rest r known = ground (
  arith,
  from_le-to_le 8 m.old_operation_id,
  from_le-to_le 8 m.new_operation_id,
  from_le-to_le 8 m.control_sequence,
  from_le-to_le 2 m.drop_reason_code,
  from_le-to_le 2 m.flags,
  from_le-to_le 4 m.diagnostic_bytes,
)

-- What `parse` returns has the fields that stand in the buffer.
parse-fields :
    (s : List ℕ) (m : SupersedeMetadata)
    → parse s ≡ ok m
    → (metadata_len ≤ length s) × IsKnown m × (fields m ≡ fields_at widths 0 s)
unfolding parse read_fields fields read_u16 read_u32 read_u64
parse-fields s m e = (ground arith, ground arith, ground (arith))

pub parse_sound :
    (s : List ℕ) (m : SupersedeMetadata)
    → All IsByte s
    → parse s ≡ ok m
    → (metadata_len ≤ length s) × IsKnown m × (layout m ≡ take metadata_len s)
unfolding layout
parse_sound s m byte e =
    let (long, known, same) = parse-fields s m e in
    (long, known, ap encode same ∙ encode-fields_at widths 0 s byte long)

pub layout-size : (m : SupersedeMetadata) → length (layout m) ≡ metadata_len
unfolding layout
layout-size m = refl

unfoldable pub codec : Codec SupersedeMetadata
codec = record {
  size = metadata_len;
  parse = parse;
  write = write;
  IsInRange = InRange;
  IsKnown = IsKnown;
  layout = layout;
  layout_size = layout-size;
  write_iff = write_iff;
  parse_layout = parse-layout;
  parse_sound = parse_sound;
}

-- A buffer of bytes parses to a given SupersedeMetadata, whose fields fit their integer types,
-- exactly when writing it over that buffer succeeds and changes nothing.
pub supersede_parse_iff_write :
    (s : List ℕ) (m : SupersedeMetadata)
    → All IsByte s
    → InRange m
    → (parse s ≡ ok m) ↔ (write m s ≡ ok s)
unfolding codec
supersede_parse_iff_write = parse_iff_write codec
