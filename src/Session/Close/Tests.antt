-- ===== src/Session/Close/Tests.antt =====
-- The metadata of SessionCloseMetadata on the wire, at one value.
use nnrp_rs.Base.{ℕ, ◌≡◌, refl, List, [], ◌∷◌, replicate}
use nnrp_rs.Error.{ok}
use nnrp_rs.Enums.InFlightPolicy
use nnrp_rs.Enums.InFlightPolicy.{InFlightPolicy}
use nnrp_rs.Enums.SessionCloseReason
use nnrp_rs.Enums.SessionCloseReason.{SessionCloseReason}
use nnrp_rs.Wire.Little.{IsByte}
use nnrp_rs.Session.Close.{SessionCloseMetadata, parse, write, copy_fields, read_fields}

abbrev example : SessionCloseMetadata
example = record {
  close_reason = SessionCloseReason.protocol_error;
  in_flight_policy = InFlightPolicy.abort;
  drain_timeout_ms = 514;
  last_operation_id = 3;
  session_error_code = 260;
  session_close_tag = 517;
}

abbrev example_bytes : List ℕ
example_bytes =
    4 ∷ 0 ∷ 1 ∷ 0 ∷ 2 ∷ 2 ∷ 0 ∷ 0 ∷ 3 ∷ 0 ∷ 0 ∷ 0 ∷ 0 ∷ 0 ∷ 0 ∷ 0 ∷ 4 ∷ 1 ∷ 0 ∷ 0 ∷ 5 ∷ 2 ∷ 0 ∷ 0
    ∷ []

example_written : write example (replicate 24 0xff) ≡ ok example_bytes
unfolding write copy_fields SessionCloseReason.as_u16 InFlightPolicy.as_u8
example_written = refl

example_parsed : parse example_bytes ≡ ok example
unfolding parse read_fields nnrp_rs.Wire.Buffer.byte_at SessionCloseReason.try_from_u16
    nnrp_rs.Wire.read_u16 nnrp_rs.Wire.Little.from_le InFlightPolicy.try_from_u8
    nnrp_rs.Wire.read_u32 nnrp_rs.Wire.read_u64
example_parsed = refl
