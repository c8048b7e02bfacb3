-- ===== src/Header/Version.antt =====
-- crates/nnrp-core/src/version.rs: ProtocolVersion.
use nnrp_rs.Base.{ℕ, ◌!=◌}
use nnrp_rs.Error.{Result, ok, ◌>>◌, reject_if, unsupported_wire_format}
use nnrp_rs.Header.{current_wire_format}

pub record ProtocolVersion : Type 0 where
  pub major : ℕ
  pub wire_format : ℕ

unfoldable pub current : ProtocolVersion
current = record { major = 1; wire_format = current_wire_format }

unfoldable pub try_new : ℕ → ℕ → Result ProtocolVersion
try_new major wire_format = do
  reject_if (wire_format != current_wire_format) (unsupported_wire_format wire_format)
  ok (record { major = major; wire_format = wire_format })
