-- ===== src/Enums/SessionStatus.antt =====
-- crates/nnrp-core/src/enums.rs: SessionStatus and its codes on the wire.
use nnrp_rs.Base.{ℕ, ◌≡◌, ◌<◌, refl, List, [], ◌∷◌, arith}
use nnrp_rs.Error.{Result, ok, unknown_enum_value}
use nnrp_rs.Enums.Arms.{match_arms, match_arms-code}

pub data SessionStatus : Type 0 where
  opened rejected retry_later resumed : SessionStatus

-- The discriminants of `repr(u8)`.
unfoldable pub as_u8 : SessionStatus → ℕ
as_u8 opened = 0
as_u8 rejected = 1
as_u8 retry_later = 2
as_u8 resumed = 3

abbrev arms : List (ℕ × SessionStatus)
arms = (0, opened) ∷ (1, rejected) ∷ (2, retry_later) ∷ (3, resumed) ∷ []

unfoldable pub try_from_u8 : ℕ → Result SessionStatus
try_from_u8 value = match_arms arms (unknown_enum_value "session_status" value) value

pub try_from_u8-as_u8 : (t : SessionStatus) → try_from_u8 (as_u8 t) ≡ ok t
unfolding try_from_u8 as_u8
try_from_u8-as_u8 opened = refl
try_from_u8-as_u8 _ = refl

pub as_u8-try_from_u8 : (value : ℕ) {t : SessionStatus} → try_from_u8 value ≡ ok t → as_u8 t ≡ value
unfolding try_from_u8 as_u8
as_u8-try_from_u8 value h =
    match_arms-code as_u8 arms (unknown_enum_value "session_status" value) value (omega arith) h

pub as_u8-lt : (t : SessionStatus) → as_u8 t < 256
unfolding as_u8
as_u8-lt opened = omega arith
as_u8-lt _ = omega arith
