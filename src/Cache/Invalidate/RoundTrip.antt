-- ===== src/Cache/Invalidate/RoundTrip.antt =====
-- What CacheInvalidateMetadata looks like on the wire, and that its `parse` and `write` agree on it.
use nnrp_rs.Base.{
  ℕ, ◌≤◌, ◌<◌, ◌^◌, ◌≡◌, refl, ap, ◌∙◌, ◌↔◌, List, [], ◌∷◌, ◌++◌, arith, length, take, drop, All,
}
use nnrp_rs.Error.{ok}
use nnrp_rs.Enums.CacheInvalidateScope
use nnrp_rs.Wire.{read_u16, read_u32, read_u64}
use nnrp_rs.Wire.Buffer.{byte_at, by_bytes}
use nnrp_rs.Wire.Little.{IsByte, from_le-to_le}
use nnrp_rs.Wire.Fields.{Field, word, encode, fields_at, encode-fields_at}
use nnrp_rs.Wire.Codec.{Codec, parse_iff_write}
use nnrp_rs.Cache.Invalidate.{
  CacheInvalidateMetadata, metadata_len, validate_scope_fields, copy_fields, read_fields, write,
  parse,
}

-- The fields fit their integer types.
pub record InRange (m : CacheInvalidateMetadata) : Type 0 where
  pub cache_namespace_fits : m.cache_namespace < 2 ^ 32
  pub cache_key_hi_fits : m.cache_key_hi < 2 ^ 64
  pub cache_key_lo_fits : m.cache_key_lo < 2 ^ 64
  pub reason_code_fits : m.reason_code < 2 ^ 32

abbrev pub widths : List ℕ
widths = 4 ∷ 4 ∷ 8 ∷ 8 ∷ 4 ∷ 4 ∷ []

-- The fields in their order; reserved ones are zero.
pub fields : CacheInvalidateMetadata → List Field
fields m =
    word 4 (CacheInvalidateScope.as_u32 m.invalidate_scope)
    ∷ word 4 m.cache_namespace
    ∷ word 8 m.cache_key_hi
    ∷ word 8 m.cache_key_lo
    ∷ word 4 m.reason_code
    ∷ word 4 0
    ∷ []

pub layout : CacheInvalidateMetadata → List ℕ
unfolding fields
layout m = encode (fields m)

-- The checks that `parse` and `write` share.
abbrev pub IsKnown : CacheInvalidateMetadata → Type 0
IsKnown m = validate_scope_fields m ≡ ok tt

copy_fields-layout :
    (m : CacheInvalidateMetadata) (d : List ℕ)
    → metadata_len ≤ length d
    → copy_fields m d ≡ layout m ++ drop metadata_len d
unfolding copy_fields layout
copy_fields-layout m =
    by_bytes (λ d. copy_fields m d ≡ layout m ++ drop metadata_len d) metadata_len (λ v rest. refl)

-- When `write` succeeds, and with which buffer.
pub write_iff :
    (m : CacheInvalidateMetadata) (d b : List ℕ)
    → (write m d ≡ ok b)
      ↔ ((metadata_len ≤ length d) × IsKnown m × (b ≡ layout m ++ drop metadata_len d))
unfolding write
write_iff m d b =
    (λ e. ground (arith, copy_fields-layout m d), λ e. ground (arith, copy_fields-layout m d))

pub parse-layout :
    (m : CacheInvalidateMetadata) (rest : List ℕ)
    → InRange m
    → IsKnown m
    → parse (layout m ++ rest) ≡ ok m
unfolding parse read_fields layout byte_at read_u16 read_u32 read_u64
parse-layout m rest r known = ground (
  arith,
  from_le-to_le 4 (CacheInvalidateScope.as_u32 m.invalidate_scope)
      (CacheInvalidateScope.as_u32-lt m.invalidate_scope),
  CacheInvalidateScope.try_from_u32-as_u32 m.invalidate_scope,
  from_le-to_le 4 m.cache_namespace,
  from_le-to_le 8 m.cache_key_hi,
  from_le-to_le 8 m.cache_key_lo,
  from_le-to_le 4 m.reason_code,
  from_le-to_le 4 0,
)

-- What `parse` returns has the fields that stand in the buffer.
parse-fields :
    (s : List ℕ) (m : CacheInvalidateMetadata)
    → parse s ≡ ok m
    → (metadata_len ≤ length s) × IsKnown m × (fields m ≡ fields_at widths 0 s)
unfolding parse read_fields fields read_u16 read_u32 read_u64
parse-fields s m e = (
  ground arith,
  ground arith,
  ground (arith, CacheInvalidateScope.as_u32-try_from_u32 (read_u32 s 0) {t = m.invalidate_scope}),
)

pub parse_sound :
    (s : List ℕ) (m : CacheInvalidateMetadata)
    → All IsByte s
    → parse s ≡ ok m
    → (metadata_len ≤ length s) × IsKnown m × (layout m ≡ take metadata_len s)
unfolding layout
parse_sound s m byte e =
    let (long, known, same) = parse-fields s m e in
    (long, known, ap encode same ∙ encode-fields_at widths 0 s byte long)

pub layout-size : (m : CacheInvalidateMetadata) → length (layout m) ≡ metadata_len
unfolding layout
layout-size m = refl

unfoldable pub codec : Codec CacheInvalidateMetadata
codec = record {
  size = metadata_len;
  parse = parse;
  write = write;
  IsInRange = InRange;
  IsKnown = IsKnown;
  layout = layout;
  layout_size = layout-size;
  write_iff = write_iff;
  parse_layout = parse-layout;
  parse_sound = parse_sound;
}

-- A buffer of bytes parses to a given CacheInvalidateMetadata, whose fields fit their integer types,
-- exactly when writing it over that buffer succeeds and changes nothing.
pub cache_invalidate_parse_iff_write :
    (s : List ℕ) (m : CacheInvalidateMetadata)
    → All IsByte s
    → InRange m
    → (parse s ≡ ok m) ↔ (write m s ≡ ok s)
unfolding codec
cache_invalidate_parse_iff_write = parse_iff_write codec
