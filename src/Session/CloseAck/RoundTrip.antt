-- ===== src/Session/CloseAck/RoundTrip.antt =====
-- What SessionCloseAckMetadata looks like on the wire, and that its `parse` and `write` agree on it.
use nnrp_rs.Base.{
  ℕ, ◌≤◌, ◌<◌, ◌^◌, ◌≡◌, refl, ap, ◌∙◌, ◌↔◌, List, [], ◌∷◌, ◌++◌, arith, length, take, drop, All,
}
use nnrp_rs.Error.{ok}
use nnrp_rs.Enums.SessionCloseStatus
use nnrp_rs.Wire.{read_u16, read_u32, read_u64}
use nnrp_rs.Wire.Buffer.{byte_at, by_bytes}
use nnrp_rs.Wire.Little.{IsByte, from_le-to_le}
use nnrp_rs.Wire.Fields.{Field, octet, word, encode, fields_at, encode-fields_at}
use nnrp_rs.Wire.Codec.{Codec, parse_iff_write}
use nnrp_rs.Session.CloseAck.{
  SessionCloseAckMetadata, metadata_len, copy_fields, read_fields, write, parse,
}

-- The fields fit their integer types.
pub record InRange (m : SessionCloseAckMetadata) : Type 0 where
  pub last_operation_id_fits : m.last_operation_id < 2 ^ 64
  pub session_error_code_fits : m.session_error_code < 2 ^ 32

abbrev pub widths : List ℕ
widths = 1 ∷ 1 ∷ 2 ∷ 8 ∷ 4 ∷ []

-- The fields in their order; reserved ones are zero.
pub fields : SessionCloseAckMetadata → List Field
fields m =
    octet (SessionCloseStatus.as_u8 m.close_status)
    ∷ octet 0
    ∷ word 2 0
    ∷ word 8 m.last_operation_id
    ∷ word 4 m.session_error_code
    ∷ []

pub layout : SessionCloseAckMetadata → List ℕ
unfolding fields
layout m = encode (fields m)

-- The checks that `parse` and `write` share.
abbrev pub IsKnown : SessionCloseAckMetadata → Type 0
IsKnown m = Unit

copy_fields-layout :
    (m : SessionCloseAckMetadata) (d : List ℕ)
    → metadata_len ≤ length d
    → copy_fields m d ≡ layout m ++ drop metadata_len d
unfolding copy_fields layout
copy_fields-layout m =
    by_bytes (λ d. copy_fields m d ≡ layout m ++ drop metadata_len d) metadata_len (λ v rest. refl)

-- When `write` succeeds, and with which buffer.
pub write_iff :
    (m : SessionCloseAckMetadata) (d b : List ℕ)
    → (write m d ≡ ok b)
      ↔ ((metadata_len ≤ length d) × IsKnown m × (b ≡ layout m ++ drop metadata_len d))
unfolding write
write_iff m d b =
    (λ e. ground (arith, copy_fields-layout m d), λ e. ground (arith, copy_fields-layout m d))

pub parse-layout :
    (m : SessionCloseAckMetadata) (rest : List ℕ)
    → InRange m
    → IsKnown m
    → parse (layout m ++ rest) ≡ ok m
unfolding parse read_fields layout byte_at read_u16 read_u32 read_u64
parse-layout m rest r known = ground (
  arith,
  SessionCloseStatus.try_from_u8-as_u8 m.close_status,
  from_le-to_le 8 m.last_operation_id,
  from_le-to_le 4 m.session_error_code,
  from_le-to_le 2 0,
)

-- What `parse` returns has the fields that stand in the buffer.
parse-fields :
    (s : List ℕ) (m : SessionCloseAckMetadata)
    → parse s ≡ ok m
    → (metadata_len ≤ length s) × IsKnown m × (fields m ≡ fields_at widths 0 s)
unfolding parse read_fields fields read_u16 read_u32 read_u64
parse-fields s m e = (
  ground arith,
  ground arith,
  ground (arith, SessionCloseStatus.as_u8-try_from_u8 (byte_at s 0) {t = m.close_status}),
)

pub parse_sound :
    (s : List ℕ) (m : SessionCloseAckMetadata)
    → All IsByte s
    → parse s ≡ ok m
    → (metadata_len ≤ length s) × IsKnown m × (layout m ≡ take metadata_len s)
unfolding layout
parse_sound s m byte e =
    let (long, known, same) = parse-fields s m e in
    (long, known, ap encode same ∙ encode-fields_at widths 0 s byte long)

pub layout-size : (m : SessionCloseAckMetadata) → length (layout m) ≡ metadata_len
unfolding layout
layout-size m = refl

unfoldable pub codec : Codec SessionCloseAckMetadata
codec = record {
  size = metadata_len;
  parse = parse;
  write = write;
  IsInRange = InRange;
  IsKnown = IsKnown;
  layout = layout;
  layout_size = layout-size;
  write_iff = write_iff;
  parse_layout = parse-layout;
  parse_sound = parse_sound;
}

-- A buffer of bytes parses to a given SessionCloseAckMetadata, whose fields fit their integer types,
-- exactly when writing it over that buffer succeeds and changes nothing.
pub session_close_ack_parse_iff_write :
    (s : List ℕ) (m : SessionCloseAckMetadata)
    → All IsByte s
    → InRange m
    → (parse s ≡ ok m) ↔ (write m s ≡ ok s)
unfolding codec
session_close_ack_parse_iff_write = parse_iff_write codec
