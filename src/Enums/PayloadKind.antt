-- ===== src/Enums/PayloadKind.antt =====
-- crates/nnrp-core/src/data.rs: PayloadKind and its codes on the wire.
use nnrp_rs.Base.{ℕ, ◌≡◌, ◌<◌, refl, List, [], ◌∷◌, arith}
use nnrp_rs.Error.{Result, ok, unknown_enum_value}
use nnrp_rs.Enums.Arms.{match_arms, match_arms-code}

pub data PayloadKind : Type 0 where
  tensor token_chunk audio_chunk video_chunk : PayloadKind
  structured_event tool_delta opaque_bytes : PayloadKind

-- `self as u8`; the discriminants of `repr(u32)` are below 256.
unfoldable pub as_u8 : PayloadKind → ℕ
as_u8 tensor = 0x00000001
as_u8 token_chunk = 0x00000002
as_u8 audio_chunk = 0x00000004
as_u8 video_chunk = 0x00000008
as_u8 structured_event = 0x00000010
as_u8 tool_delta = 0x00000020
as_u8 opaque_bytes = 0x00000040

abbrev arms : List (ℕ × PayloadKind)
arms =
    (0x00000001, tensor)
    ∷ (0x00000002, token_chunk)
    ∷ (0x00000004, audio_chunk)
    ∷ (0x00000008, video_chunk)
    ∷ (0x00000010, structured_event)
    ∷ (0x00000020, tool_delta)
    ∷ (0x00000040, opaque_bytes)
    ∷ []

unfoldable pub try_from_bit : ℕ → Result PayloadKind
try_from_bit value = match_arms arms (unknown_enum_value "payload_kind" value) value

pub try_from_bit-as_u8 : (t : PayloadKind) → try_from_bit (as_u8 t) ≡ ok t
unfolding try_from_bit as_u8
try_from_bit-as_u8 tensor = refl
try_from_bit-as_u8 _ = refl

pub as_u8-try_from_bit : (value : ℕ) {t : PayloadKind} → try_from_bit value ≡ ok t → as_u8 t ≡ value
unfolding try_from_bit as_u8
as_u8-try_from_bit value h =
    match_arms-code as_u8 arms (unknown_enum_value "payload_kind" value) value (omega arith) h

pub as_u8-lt : (t : PayloadKind) → as_u8 t < 256
unfolding as_u8
as_u8-lt tensor = omega arith
as_u8-lt _ = omega arith
