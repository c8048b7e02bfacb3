-- ===== src/Flow/RoundTrip.antt =====
-- What FlowUpdateMetadata looks like on the wire, and that its `parse` and `write` agree on it.
use nnrp_rs.Enums.BackpressureLevel.{BackpressureLevel}
use nnrp_rs.Enums.FlowUpdateReason.{FlowUpdateReason}
use nnrp_rs.Enums.FlowScopeKind.{FlowScopeKind}
use nnrp_rs.Base.{
  ℕ, ◌≤◌, ◌<◌, ◌^◌, ◌≡◌, refl, ap, ◌∙◌, ◌↔◌, List, [], ◌∷◌, ◌++◌, arith, length, take, drop, All,
}
use nnrp_rs.Error.{ok}
use nnrp_rs.Enums.BackpressureLevel
use nnrp_rs.Enums.FlowScopeKind
use nnrp_rs.Enums.FlowUpdateReason
use nnrp_rs.Wire.{read_u16, read_u32, read_u64, validate_mask}
use nnrp_rs.Wire.Buffer.{byte_at, by_bytes}
use nnrp_rs.Wire.Little.{IsByte, from_le-to_le}
use nnrp_rs.Wire.Fields.{Field, octet, word, encode, fields_at, encode-fields_at}
use nnrp_rs.Wire.Codec.{Codec, parse_iff_write}
use nnrp_rs.Flow.{
  FlowUpdateMetadata, metadata_len, flags_known_mask, copy_fields, read_fields, write, parse,
}

-- The fields fit their integer types.
pub record InRange (m : FlowUpdateMetadata) : Type 0 where
  pub connection_credit_fits : m.connection_credit < 2 ^ 16
  pub session_credit_fits : m.session_credit < 2 ^ 16
  pub operation_credit_fits : m.operation_credit < 2 ^ 16
  pub operation_id_fits : m.operation_id < 2 ^ 64
  pub retry_after_ms_fits : m.retry_after_ms < 2 ^ 32
  pub credit_epoch_fits : m.credit_epoch < 2 ^ 32
  pub flow_flags_fits : m.flow_flags < 2 ^ 32

abbrev pub widths : List ℕ
widths = 1 ∷ 1 ∷ 1 ∷ 1 ∷ 2 ∷ 2 ∷ 2 ∷ 2 ∷ 8 ∷ 4 ∷ 4 ∷ 4 ∷ []

-- The fields in their order; reserved ones are zero.
pub fields : FlowUpdateMetadata → List Field
fields m =
    octet (FlowScopeKind.as_u8 m.scope_kind)
    ∷ octet (FlowUpdateReason.as_u8 m.update_reason)
    ∷ octet (BackpressureLevel.as_u8 m.backpressure_level)
    ∷ octet 0
    ∷ word 2 m.connection_credit
    ∷ word 2 m.session_credit
    ∷ word 2 m.operation_credit
    ∷ word 2 0
    ∷ word 8 m.operation_id
    ∷ word 4 m.retry_after_ms
    ∷ word 4 m.credit_epoch
    ∷ word 4 m.flow_flags
    ∷ []

pub layout : FlowUpdateMetadata → List ℕ
unfolding fields
layout m = encode (fields m)

-- The checks that `parse` and `write` share.
abbrev pub IsKnown : FlowUpdateMetadata → Type 0
IsKnown m = validate_mask 32 m.flow_flags flags_known_mask ≡ ok tt

copy_fields-layout :
    (m : FlowUpdateMetadata) (d : List ℕ)
    → metadata_len ≤ length d
    → copy_fields m d ≡ layout m ++ drop metadata_len d
unfolding copy_fields layout
copy_fields-layout m =
    by_bytes (λ d. copy_fields m d ≡ layout m ++ drop metadata_len d) metadata_len (λ v rest. refl)

-- When `write` succeeds, and with which buffer.
pub write_iff :
    (m : FlowUpdateMetadata) (d b : List ℕ)
    → (write m d ≡ ok b)
      ↔ ((metadata_len ≤ length d) × IsKnown m × (b ≡ layout m ++ drop metadata_len d))
unfolding write
write_iff m d b =
    (λ e. ground (arith, copy_fields-layout m d), λ e. ground (arith, copy_fields-layout m d))

pub parse-layout :
    (m : FlowUpdateMetadata) (rest : List ℕ)
    → InRange m
    → IsKnown m
    → parse (layout m ++ rest) ≡ ok m
unfolding parse read_fields layout byte_at read_u16 read_u32 read_u64
parse-layout m rest r known = ground (
  arith,
  FlowScopeKind.try_from_u8-as_u8 m.scope_kind,
  FlowUpdateReason.try_from_u8-as_u8 m.update_reason,
  BackpressureLevel.try_from_u8-as_u8 m.backpressure_level,
  from_le-to_le 2 m.connection_credit,
  from_le-to_le 2 m.session_credit,
  from_le-to_le 2 m.operation_credit,
  from_le-to_le 8 m.operation_id,
  from_le-to_le 4 m.retry_after_ms,
  from_le-to_le 4 m.credit_epoch,
  from_le-to_le 4 m.flow_flags,
  from_le-to_le 2 0,
)

-- What `parse` has checked and read when it succeeds.
record IsParsed (s : List ℕ) (m : FlowUpdateMetadata) : Type 0 where
  long : metadata_len ≤ length s
  zero_at_3 : byte_at s 3 ≡ 0
  zero_at_10 : read_u16 s 10 ≡ 0
  known : validate_mask 32 (read_u32 s 28) flags_known_mask ≡ ok tt
  scope_kind : FlowScopeKind
  scope_kind_read : FlowScopeKind.try_from_u8 (byte_at s 0) ≡ ok scope_kind
  update_reason : FlowUpdateReason
  update_reason_read : FlowUpdateReason.try_from_u8 (byte_at s 1) ≡ ok update_reason
  backpressure_level : BackpressureLevel
  backpressure_level_read : BackpressureLevel.try_from_u8 (byte_at s 2) ≡ ok backpressure_level
  fields : m ≡ read_fields s scope_kind update_reason backpressure_level

parse-IsParsed : (s : List ℕ) (m : FlowUpdateMetadata) → parse s ≡ ok m → IsParsed s m
unfolding parse
parse-IsParsed s m e = ground arith

-- What `parse` returns has the fields that stand in the buffer.
parse-fields :
    (s : List ℕ) (m : FlowUpdateMetadata)
    → parse s ≡ ok m
    → (metadata_len ≤ length s) × IsKnown m × (fields m ≡ fields_at widths 0 s)
unfolding read_fields fields read_u16 read_u32 read_u64
parse-fields s m e =
    let p : IsParsed s m = parse-IsParsed s m e in
    let code_scope_kind = FlowScopeKind.as_u8-try_from_u8 (byte_at s 0) p.scope_kind_read in
    let code_update_reason =
      FlowUpdateReason.as_u8-try_from_u8 (byte_at s 1) p.update_reason_read in
    let code_backpressure_level =
      BackpressureLevel.as_u8-try_from_u8 (byte_at s 2) p.backpressure_level_read in
    let zero_at_3 = p.zero_at_3 in
    let zero_at_10 = p.zero_at_10 in
    (
      p.long,
      ap (λ m. validate_mask 32 m.flow_flags flags_known_mask) p.fields ∙ p.known,
      ap fields p.fields ∙ cc,
    )

pub parse_sound :
    (s : List ℕ) (m : FlowUpdateMetadata)
    → All IsByte s
    → parse s ≡ ok m
    → (metadata_len ≤ length s) × IsKnown m × (layout m ≡ take metadata_len s)
unfolding layout
parse_sound s m byte e =
    let (long, known, same) = parse-fields s m e in
    (long, known, ap encode same ∙ encode-fields_at widths 0 s byte long)

pub layout-size : (m : FlowUpdateMetadata) → length (layout m) ≡ metadata_len
unfolding layout
layout-size m = refl

unfoldable pub codec : Codec FlowUpdateMetadata
codec = record {
  size = metadata_len;
  parse = parse;
  write = write;
  IsInRange = InRange;
  IsKnown = IsKnown;
  layout = layout;
  layout_size = layout-size;
  write_iff = write_iff;
  parse_layout = parse-layout;
  parse_sound = parse_sound;
}

-- A buffer of bytes parses to a given FlowUpdateMetadata, whose fields fit their integer types,
-- exactly when writing it over that buffer succeeds and changes nothing.
pub flow_update_parse_iff_write :
    (s : List ℕ) (m : FlowUpdateMetadata)
    → All IsByte s
    → InRange m
    → (parse s ≡ ok m) ↔ (write m s ≡ ok s)
unfolding codec
flow_update_parse_iff_write = parse_iff_write codec
