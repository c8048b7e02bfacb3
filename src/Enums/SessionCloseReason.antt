-- ===== src/Enums/SessionCloseReason.antt =====
-- crates/nnrp-core/src/enums.rs: SessionCloseReason and its codes on the wire.
use nnrp_rs.Base.{ℕ, ◌≡◌, ◌<◌, refl, List, [], ◌∷◌, arith}
use nnrp_rs.Error.{Result, ok, unknown_enum_value}
use nnrp_rs.Enums.Arms.{match_arms, match_arms-code}

pub data SessionCloseReason : Type 0 where
  normal client_shutdown server_shutdown idle_timeout protocol_error : SessionCloseReason
  auth_revoked : SessionCloseReason

-- The discriminants of `repr(u16)`.
unfoldable pub as_u16 : SessionCloseReason → ℕ
as_u16 normal = 0
as_u16 client_shutdown = 1
as_u16 server_shutdown = 2
as_u16 idle_timeout = 3
as_u16 protocol_error = 4
as_u16 auth_revoked = 5

abbrev arms : List (ℕ × SessionCloseReason)
arms =
    (0, normal)
    ∷ (1, client_shutdown)
    ∷ (2, server_shutdown)
    ∷ (3, idle_timeout)
    ∷ (4, protocol_error)
    ∷ (5, auth_revoked)
    ∷ []

unfoldable pub try_from_u16 : ℕ → Result SessionCloseReason
try_from_u16 value = match_arms arms (unknown_enum_value "close_reason" value) value

pub try_from_u16-as_u16 : (t : SessionCloseReason) → try_from_u16 (as_u16 t) ≡ ok t
unfolding try_from_u16 as_u16
try_from_u16-as_u16 normal = refl
try_from_u16-as_u16 _ = refl

pub as_u16-try_from_u16 :
    (value : ℕ) {t : SessionCloseReason} → try_from_u16 value ≡ ok t → as_u16 t ≡ value
unfolding try_from_u16 as_u16
as_u16-try_from_u16 value h =
    match_arms-code as_u16 arms (unknown_enum_value "close_reason" value) value (omega arith) h

pub as_u16-lt : (t : SessionCloseReason) → as_u16 t < 65536
unfolding as_u16
as_u16-lt normal = omega arith
as_u16-lt _ = omega arith
