-- ===== src/Enums/SessionCloseStatus.antt =====
-- crates/nnrp-core/src/enums.rs: SessionCloseStatus and its codes on the wire.
use nnrp_rs.Base.{ℕ, ◌≡◌, ◌<◌, refl, List, [], ◌∷◌, arith}
use nnrp_rs.Error.{Result, ok, unknown_enum_value}
use nnrp_rs.Enums.Arms.{match_arms, match_arms-code}

pub data SessionCloseStatus : Type 0 where
  acknowledged draining closed rejected : SessionCloseStatus

-- The discriminants of `repr(u8)`.
unfoldable pub as_u8 : SessionCloseStatus → ℕ
as_u8 acknowledged = 0
as_u8 draining = 1
as_u8 closed = 2
as_u8 rejected = 3

abbrev arms : List (ℕ × SessionCloseStatus)
arms = (0, acknowledged) ∷ (1, draining) ∷ (2, closed) ∷ (3, rejected) ∷ []

unfoldable pub try_from_u8 : ℕ → Result SessionCloseStatus
try_from_u8 value = match_arms arms (unknown_enum_value "close_status" value) value

pub try_from_u8-as_u8 : (t : SessionCloseStatus) → try_from_u8 (as_u8 t) ≡ ok t
unfolding try_from_u8 as_u8
try_from_u8-as_u8 acknowledged = refl
try_from_u8-as_u8 _ = refl

pub as_u8-try_from_u8 :
    (value : ℕ) {t : SessionCloseStatus} → try_from_u8 value ≡ ok t → as_u8 t ≡ value
unfolding try_from_u8 as_u8
as_u8-try_from_u8 value h =
    match_arms-code as_u8 arms (unknown_enum_value "close_status" value) value (omega arith) h

pub as_u8-lt : (t : SessionCloseStatus) → as_u8 t < 256
unfolding as_u8
as_u8-lt acknowledged = omega arith
as_u8-lt _ = omega arith
