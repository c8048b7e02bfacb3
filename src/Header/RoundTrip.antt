-- ===== src/Header/RoundTrip.antt =====
-- CommonHeader::write and CommonHeader::parse undo one another.
use nnrp_rs.Base.{
  ℕ, ◌≤◌, ◌<◌, ◌^◌, ◌≡◌, refl, subst, sym, ap, ◌∙◌, true, List, [], ◌∷◌, ◌++◌, arith, length, take,
  drop, All,
}
use nnrp_rs.Error.{ok}
use nnrp_rs.Enums.MessageType
use nnrp_rs.Enums.MessageType.{MessageType, try_from_u8, try_from_u8-as_u8, as_u8-try_from_u8}
use nnrp_rs.Enums.HeaderFlags.{validate_known}
use nnrp_rs.Wire.{read_u16, read_u32, read_u64}
use nnrp_rs.Wire.Buffer.{byte_at, bytes_eq, bytes_eq-eq, ◌⊹◌, by_bytes}
use nnrp_rs.Wire.Little.{IsByte, from_le-to_le, to_le-slice}
use nnrp_rs.Header.{CommonHeader, magic, write, parse, read_fields}
use nnrp_rs.Header.Layout.{layout, write_iff}

-- The fields fit their integer types.
pub record InRange (h : CommonHeader) : Type 0 where
  pub flags_fit : h.flags.bits < 2 ^ 32
  pub meta_len_fits : h.meta_len < 2 ^ 32
  pub body_len_fits : h.body_len < 2 ^ 32
  pub session_id_fits : h.session_id < 2 ^ 32
  pub frame_id_fits : h.frame_id < 2 ^ 32
  pub view_id_fits : h.view_id < 2 ^ 16
  pub route_id_fits : h.route_id < 2 ^ 16
  pub trace_id_fits : h.trace_id < 2 ^ 64

pub parse-layout :
    (h : CommonHeader) (rest : List ℕ)
    → InRange h
    → h.version_major ≡ 1
    → h.wire_format ≡ 0
    → h.header_len ≡ 40
    → validate_known h.flags ≡ ok tt
    → parse (layout h ++ rest) ≡ ok h
unfolding parse read_fields layout byte_at bytes_eq read_u16 read_u32 read_u64
parse-layout h rest r v w l f = ground (
  arith,
  from_le-to_le 4 h.flags.bits,
  from_le-to_le 4 h.meta_len,
  from_le-to_le 4 h.body_len,
  from_le-to_le 4 h.session_id,
  from_le-to_le 4 h.frame_id,
  from_le-to_le 2 h.view_id,
  from_le-to_le 2 h.route_id,
  from_le-to_le 8 h.trace_id,
  try_from_u8-as_u8 h.message_type,
)

-- A header whose fields fit their integer types, that `write` accepts and that carries the current
-- version and wire format is read back from the buffer unchanged, whatever stands behind it.
pub parse-write :
    (h : CommonHeader) (d b : List ℕ)
    → InRange h
    → h.version_major ≡ 1
    → h.wire_format ≡ 0
    → write h d ≡ ok b
    → parse b ≡ ok h
parse-write h d b r v w e =
    let (long, len, flags, eq) = (write_iff h d b).0 e in
    subst (λ x. parse x ≡ ok h) (sym eq) (parse-layout h _ r v w len flags)

-- What `parse` has checked and read when it succeeds.
record IsParsed (s : List ℕ) (h : CommonHeader) : Type 0 where
  long : 40 ≤ length s
  starts : bytes_eq (take 4 s) magic ≡ true
  header_len_right : byte_at s 7 ≡ 40
  flags_known : validate_known (record { bits = read_u32 s 8 }) ≡ ok tt
  kind : MessageType
  kind_read : try_from_u8 (byte_at s 6) ≡ ok kind
  fields : h ≡ read_fields s kind

parse-IsParsed : (s : List ℕ) (h : CommonHeader) → parse s ≡ ok h → IsParsed s h
unfolding parse
parse-IsParsed s h e = ground arith

-- The slices that `parse` reads cover the header without a gap.
abbrev Covered : List ℕ → Type 0
Covered s =
    take 4 s
      ++ byte_at s 4 ∷ byte_at s 5 ∷ byte_at s 6 ∷ byte_at s 7 ∷ []
      ++ take 4 (drop 8 s)
      ++ take 4 (drop 12 s)
      ++ take 4 (drop 16 s)
      ++ take 4 (drop 20 s)
      ++ take 4 (drop 24 s)
      ++ take 2 (drop 28 s)
      ++ take 2 (drop 30 s)
      ++ take 8 (drop 32 s)
    ≡ take 40 s

slices : (s : List ℕ) → 40 ≤ length s → Covered s
unfolding byte_at
slices = by_bytes Covered 40 (λ v rest. refl)

layout-read_fields :
    (s : List ℕ) (kind : MessageType)
    → All IsByte s
    → 40 ≤ length s
    → bytes_eq (take 4 s) magic ≡ true
    → MessageType.as_u8 kind ≡ byte_at s 6
    → layout (read_fields s kind) ≡ take 40 s
unfolding layout read_fields read_u16 read_u32 read_u64
layout-read_fields s kind byte long start code =
    sym (bytes_eq-eq _ magic start)
      ⊹ ap (λ c. byte_at s 4 ∷ byte_at s 5 ∷ c ∷ byte_at s 7 ∷ []) code
      ⊹ to_le-slice 4 8 s byte (omega arith) refl
      ⊹ to_le-slice 4 12 s byte (omega arith) refl
      ⊹ to_le-slice 4 16 s byte (omega arith) refl
      ⊹ to_le-slice 4 20 s byte (omega arith) refl
      ⊹ to_le-slice 4 24 s byte (omega arith) refl
      ⊹ to_le-slice 2 28 s byte (omega arith) refl
      ⊹ to_le-slice 2 30 s byte (omega arith) refl
      ⊹ to_le-slice 8 32 s byte (omega arith) refl
    ∙ slices s long

-- Encoding what `parse` has read from a buffer of bytes gives back its first 40 bytes, in any
-- buffer that is long enough; over the source itself nothing changes.
pub write-parse :
    (s d : List ℕ) (h : CommonHeader)
    → All IsByte s
    → 40 ≤ length d
    → parse s ≡ ok h
    → write h d ≡ ok (take 40 s ++ drop 40 d)
unfolding read_fields
write-parse s d h byte long e =
    let p : IsParsed s h = parse-IsParsed s h e in
    let eq : layout h ≡ take 40 s =
      ap layout p.fields
      ∙ layout-read_fields s p.kind byte p.long p.starts
          (as_u8-try_from_u8 (byte_at s 6) p.kind_read) in
    (write_iff h d (take 40 s ++ drop 40 d)).1 (
      long,
      ap (λ h. h.header_len) p.fields ∙ p.header_len_right,
      ap (λ h. validate_known h.flags) p.fields ∙ p.flags_known,
      ap (λ x. x ++ drop 40 d) (sym eq),
    )
