-- ===== src/Session/CloseAck/Tests.antt =====
-- The metadata of SessionCloseAckMetadata on the wire, at one value.
use nnrp_rs.Base.{ℕ, ◌≡◌, refl, List, [], ◌∷◌, replicate}
use nnrp_rs.Error.{ok}
use nnrp_rs.Enums.SessionCloseStatus
use nnrp_rs.Enums.SessionCloseStatus.{SessionCloseStatus}
use nnrp_rs.Wire.Little.{IsByte}
use nnrp_rs.Session.CloseAck.{SessionCloseAckMetadata, parse, write, copy_fields, read_fields}

abbrev example : SessionCloseAckMetadata
example = record {
  close_status = SessionCloseStatus.rejected;
  last_operation_id = 514;
  session_error_code = 3;
}

abbrev example_bytes : List ℕ
example_bytes = 3 ∷ 0 ∷ 0 ∷ 0 ∷ 2 ∷ 2 ∷ 0 ∷ 0 ∷ 0 ∷ 0 ∷ 0 ∷ 0 ∷ 3 ∷ 0 ∷ 0 ∷ 0 ∷ []

example_written : write example (replicate 16 0xff) ≡ ok example_bytes
unfolding write copy_fields SessionCloseStatus.as_u8
example_written = refl

example_parsed : parse example_bytes ≡ ok example
unfolding parse read_fields nnrp_rs.Wire.Buffer.byte_at nnrp_rs.Wire.read_u16
    nnrp_rs.Wire.Little.from_le SessionCloseStatus.try_from_u8 nnrp_rs.Wire.read_u64
    nnrp_rs.Wire.read_u32
example_parsed = refl
