-- ===== src/Session/Close/RoundTrip.antt =====
-- What SessionCloseMetadata looks like on the wire, and that its `parse` and `write` agree on it.
use nnrp_rs.Base.{
  ℕ, ◌≤◌, ◌<◌, ◌^◌, ◌≡◌, refl, ap, ◌∙◌, ◌↔◌, List, [], ◌∷◌, ◌++◌, arith, length, take, drop, All,
}
use nnrp_rs.Error.{ok}
use nnrp_rs.Enums.InFlightPolicy
use nnrp_rs.Enums.SessionCloseReason
use nnrp_rs.Wire.{read_u16, read_u32, read_u64}
use nnrp_rs.Wire.Buffer.{byte_at, by_bytes}
use nnrp_rs.Wire.Little.{IsByte, from_le-to_le}
use nnrp_rs.Wire.Fields.{Field, octet, word, encode, fields_at, encode-fields_at}
use nnrp_rs.Wire.Codec.{Codec, parse_iff_write}
use nnrp_rs.Session.Close.{
  SessionCloseMetadata, metadata_len, copy_fields, read_fields, write, parse,
}

-- The fields fit their integer types.
pub record InRange (m : SessionCloseMetadata) : Type 0 where
  pub drain_timeout_ms_fits : m.drain_timeout_ms < 2 ^ 32
  pub last_operation_id_fits : m.last_operation_id < 2 ^ 64
  pub session_error_code_fits : m.session_error_code < 2 ^ 32
  pub session_close_tag_fits : m.session_close_tag < 2 ^ 32

abbrev pub widths : List ℕ
widths = 2 ∷ 1 ∷ 1 ∷ 4 ∷ 8 ∷ 4 ∷ 4 ∷ []

-- The fields in their order; reserved ones are zero.
pub fields : SessionCloseMetadata → List Field
fields m =
    word 2 (SessionCloseReason.as_u16 m.close_reason)
    ∷ octet (InFlightPolicy.as_u8 m.in_flight_policy)
    ∷ octet 0
    ∷ word 4 m.drain_timeout_ms
    ∷ word 8 m.last_operation_id
    ∷ word 4 m.session_error_code
    ∷ word 4 m.session_close_tag
    ∷ []

pub layout : SessionCloseMetadata → List ℕ
unfolding fields
layout m = encode (fields m)

-- The checks that `parse` and `write` share.
abbrev pub IsKnown : SessionCloseMetadata → Type 0
IsKnown m = Unit

copy_fields-layout :
    (m : SessionCloseMetadata) (d : List ℕ)
    → metadata_len ≤ length d
    → copy_fields m d ≡ layout m ++ drop metadata_len d
unfolding copy_fields layout
copy_fields-layout m =
    by_bytes (λ d. copy_fields m d ≡ layout m ++ drop metadata_len d) metadata_len (λ v rest. refl)

-- When `write` succeeds, and with which buffer.
pub write_iff :
    (m : SessionCloseMetadata) (d b : List ℕ)
    → (write m d ≡ ok b)
      ↔ ((metadata_len ≤ length d) × IsKnown m × (b ≡ layout m ++ drop metadata_len d))
unfolding write
write_iff m d b =
    (λ e. ground (arith, copy_fields-layout m d), λ e. ground (arith, copy_fields-layout m d))

pub parse-layout :
    (m : SessionCloseMetadata) (rest : List ℕ)
    → InRange m
    → IsKnown m
    → parse (layout m ++ rest) ≡ ok m
unfolding parse read_fields layout byte_at read_u16 read_u32 read_u64
parse-layout m rest r known = ground (
  arith,
  from_le-to_le 2 (SessionCloseReason.as_u16 m.close_reason)
      (SessionCloseReason.as_u16-lt m.close_reason),
  SessionCloseReason.try_from_u16-as_u16 m.close_reason,
  InFlightPolicy.try_from_u8-as_u8 m.in_flight_policy,
  from_le-to_le 4 m.drain_timeout_ms,
  from_le-to_le 8 m.last_operation_id,
  from_le-to_le 4 m.session_error_code,
  from_le-to_le 4 m.session_close_tag,
)

-- What `parse` returns has the fields that stand in the buffer.
parse-fields :
    (s : List ℕ) (m : SessionCloseMetadata)
    → parse s ≡ ok m
    → (metadata_len ≤ length s) × IsKnown m × (fields m ≡ fields_at widths 0 s)
unfolding parse read_fields fields read_u16 read_u32 read_u64
parse-fields s m e = (
  ground arith,
  ground arith,
  ground (
    arith,
    SessionCloseReason.as_u16-try_from_u16 (read_u16 s 0) {t = m.close_reason},
    InFlightPolicy.as_u8-try_from_u8 (byte_at s 2) {t = m.in_flight_policy},
  ),
)

pub parse_sound :
    (s : List ℕ) (m : SessionCloseMetadata)
    → All IsByte s
    → parse s ≡ ok m
    → (metadata_len ≤ length s) × IsKnown m × (layout m ≡ take metadata_len s)
unfolding layout
parse_sound s m byte e =
    let (long, known, same) = parse-fields s m e in
    (long, known, ap encode same ∙ encode-fields_at widths 0 s byte long)

pub layout-size : (m : SessionCloseMetadata) → length (layout m) ≡ metadata_len
unfolding layout
layout-size m = refl

unfoldable pub codec : Codec SessionCloseMetadata
codec = record {
  size = metadata_len;
  parse = parse;
  write = write;
  IsInRange = InRange;
  IsKnown = IsKnown;
  layout = layout;
  layout_size = layout-size;
  write_iff = write_iff;
  parse_layout = parse-layout;
  parse_sound = parse_sound;
}

-- A buffer of bytes parses to a given SessionCloseMetadata, whose fields fit their integer types,
-- exactly when writing it over that buffer succeeds and changes nothing.
pub session_close_parse_iff_write :
    (s : List ℕ) (m : SessionCloseMetadata)
    → All IsByte s
    → InRange m
    → (parse s ≡ ok m) ↔ (write m s ≡ ok s)
unfolding codec
session_close_parse_iff_write = parse_iff_write codec
