-- ===== src/Header/Packet.antt =====
-- CommonHeader::packet_len and CommonHeader::parse_packet: the framing of a packet.
use mathlib.Core.List.{append-nil}
use nnrp_rs.Base.{
  ℕ, ◌+◌, ◌<◌, ◌^◌, ◌≡◌, refl, subst, sym, ap, ap₂, drop-drop, take-append, drop-append, replicate,
  ◌∙◌, List, ◌++◌, arith, length, take, drop, length-append, length-take, length-drop,
  take-append-drop, if◌then◌else◌, ltb,
}
use nnrp_rs.Error.{ok, err, message_length_overflow}
use nnrp_rs.Header.{CommonHeader, packet_len, parse, parse_packet, to_bytes}
use nnrp_rs.Header.Layout.{layout, write_iff}
use nnrp_rs.Header.RoundTrip.{InRange, parse-layout}

-- The second addition of `packet_len` cannot overflow, so only the sum of the lengths decides.
pub packet_len_lem :
    (h : CommonHeader)
    → packet_len h ≡ (
        if ltb (h.meta_len + h.body_len) (2 ^ 32)
        then ok (40 + (h.meta_len + h.body_len))
        else err message_length_overflow)
unfolding packet_len
packet_len_lem h = ground arith

-- What `parse_packet` has checked when it succeeds.
record IsFramed (s m b : List ℕ) (h : CommonHeader) : Type 0 where
  header : parse s ≡ ok h
  total : length s ≡ 40 + (h.meta_len + h.body_len)
  meta_part : m ≡ take h.meta_len (drop 40 s)
  body_part : b ≡ drop (40 + h.meta_len) s

parse_packet-IsFramed :
    (s m b : List ℕ) (h : CommonHeader) → parse_packet s ≡ ok (h, m, b) → IsFramed s m b h
unfolding parse_packet
parse_packet-IsFramed s m b h e = ground (arith, packet_len_lem h)

-- A packet that is accepted is its header, its metadata and its body, of the declared lengths and
-- with nothing behind them.
pub parse_packet_parts :
    (s m b : List ℕ) (h : CommonHeader)
    → parse_packet s ≡ ok (h, m, b)
    → (parse s ≡ ok h)
      × (length m ≡ h.meta_len)
      × (length b ≡ h.body_len)
      × (take 40 s ++ (m ++ b) ≡ s)
parse_packet_parts s m b h e =
    let f : IsFramed s m b h = parse_packet-IsFramed s m b h e in
    (
      f.header,
      ap length f.meta_part
          ∙ length-take h.meta_len (drop 40 s) (omega (arith, f.total, length-drop 40 s)),
      ap length f.body_part ∙ omega (arith, f.total, length-drop (40 + h.meta_len) s),
      ap (◌++◌ (take 40 s)) (
            ap₂ ◌++◌ f.meta_part (f.body_part ∙ sym (drop-drop 40 h.meta_len s))
            ∙ take-append-drop h.meta_len (drop 40 s))
          ∙ take-append-drop 40 s,
    )

parse_packet-framed :
    (s : List ℕ) (h : CommonHeader)
    → parse s ≡ ok h
    → length s ≡ 40 + (h.meta_len + h.body_len)
    → h.meta_len + h.body_len < 2 ^ 32
    → parse_packet s ≡ ok (h, take h.meta_len (drop 40 s), drop (40 + h.meta_len) s)
unfolding parse_packet
parse_packet-framed s h p total fits = ground (arith, packet_len_lem h)

length-layout : (h : CommonHeader) (rest : List ℕ) → length (layout h ++ rest) ≡ 40 + length rest
unfolding layout
length-layout h rest = omega arith

drop-layout : (h : CommonHeader) (rest : List ℕ) → drop 40 (layout h ++ rest) ≡ rest
unfolding layout
drop-layout h rest = refl

-- The slices of a buffer that holds the two parts behind a header.
parts_of :
    (s m b : List ℕ) (n : ℕ)
    → drop 40 s ≡ m ++ b
    → length m ≡ n
    → (take n (drop 40 s) ≡ m) × (drop (40 + n) s ≡ b)
parts_of s m b n e l = (
  ap₂ take (sym l) e ∙ take-append m b,
  sym (drop-drop 40 n s) ∙ ap₂ drop (sym l) e ∙ drop-append m b,
)

parse_packet-layout :
    (h : CommonHeader) (m b : List ℕ)
    → parse (layout h ++ (m ++ b)) ≡ ok h
    → length m ≡ h.meta_len
    → length b ≡ h.body_len
    → h.meta_len + h.body_len < 2 ^ 32
    → parse_packet (layout h ++ (m ++ b)) ≡ ok (h, m, b)
parse_packet-layout h m b p lm lb fits =
    let s : List ℕ = layout h ++ (m ++ b) in
    let (meta, body) = parts_of s m b h.meta_len (drop-layout h (m ++ b)) lm in
    parse_packet-framed s h p (omega (arith, length-layout h (m ++ b), length-append m b)) fits
    ∙ ap₂ (λ x y. ok (h, x, y)) meta body

-- Metadata and body sent behind an encoded header that declares their lengths, of fewer than 2 ^
-- 32 bytes together, are received as they were sent, with the header, if it carries the current
-- version and wire format and its fields fit their integer types.
pub parse_packet-to_bytes :
    (h : CommonHeader) (first m b : List ℕ)
    → InRange h
    → h.version_major ≡ 1
    → h.wire_format ≡ 0
    → h.meta_len + h.body_len < 2 ^ 32
    → length m ≡ h.meta_len
    → length b ≡ h.body_len
    → to_bytes h ≡ ok first
    → parse_packet (first ++ (m ++ b)) ≡ ok (h, m, b)
unfolding to_bytes
parse_packet-to_bytes h first m b r v w fits lm lb e =
    let (long, len, flags, eq) = (write_iff h (replicate 40 0) first).0 e in
    let eq' : first ≡ layout h = eq ∙ append-nil (layout h) in
    subst (λ x. parse_packet (x ++ (m ++ b)) ≡ ok (h, m, b)) (sym eq')
      (parse_packet-layout h m b (parse-layout h (m ++ b) r v w len flags) lm lb fits)
