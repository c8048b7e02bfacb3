-- ===== src/Enums/TransportId.antt =====
-- crates/nnrp-core/src/control.rs: TransportId and its codes on the wire.
use nnrp_rs.Base.{ℕ, ◌≡◌, ◌<◌, refl, List, [], ◌∷◌, arith}
use nnrp_rs.Error.{Result, ok, unknown_enum_value}
use nnrp_rs.Enums.Arms.{match_arms, match_arms-code}

pub data TransportId : Type 0 where
  unspecified quic tcp ipc : TransportId
  web_socket : TransportId

-- The discriminants of `repr(u32)`.
unfoldable pub as_u32 : TransportId → ℕ
as_u32 unspecified = 0
as_u32 quic = 1
as_u32 tcp = 2
as_u32 ipc = 3
as_u32 web_socket = 4

abbrev arms : List (ℕ × TransportId)
arms = (0, unspecified) ∷ (1, quic) ∷ (2, tcp) ∷ (3, ipc) ∷ (4, web_socket) ∷ []

unfoldable pub try_from_u32 : ℕ → Result TransportId
try_from_u32 value = match_arms arms (unknown_enum_value "transport_id" value) value

pub try_from_u32-as_u32 : (t : TransportId) → try_from_u32 (as_u32 t) ≡ ok t
unfolding try_from_u32 as_u32
try_from_u32-as_u32 unspecified = refl
try_from_u32-as_u32 _ = refl

pub as_u32-try_from_u32 :
    (value : ℕ) {t : TransportId} → try_from_u32 value ≡ ok t → as_u32 t ≡ value
unfolding try_from_u32 as_u32
as_u32-try_from_u32 value h =
    match_arms-code as_u32 arms (unknown_enum_value "transport_id" value) value (omega arith) h

pub as_u32-lt : (t : TransportId) → as_u32 t < 4294967296
unfolding as_u32
as_u32-lt unspecified = omega arith
as_u32-lt _ = omega arith
