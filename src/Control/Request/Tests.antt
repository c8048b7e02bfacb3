-- ===== src/Control/Request/Tests.antt =====
-- The metadata of ControlRequestMetadata on the wire, at one value.
use nnrp_rs.Base.{ℕ, ◌≡◌, refl, List, [], ◌∷◌, ◌++◌, replicate}
use nnrp_rs.Error.{ok}
use nnrp_rs.Wire.Little.{IsByte}
use nnrp_rs.Control.Request.{
  ControlRequestMetadata, parse_with_diagnostics, parse, write, copy_fields, read_fields,
}

abbrev example : ControlRequestMetadata
example = record {
  operation_id = 514;
  control_sequence = 3;
  reason_code = 260;
  source_role = 1;
  flags = 1;
  diagnostic_bytes = 3;
}

abbrev example_bytes : List ℕ
example_bytes =
    2 ∷ 2 ∷ 0 ∷ 0 ∷ 0 ∷ 0 ∷ 0 ∷ 0 ∷ 3 ∷ 0 ∷ 0 ∷ 0 ∷ 0 ∷ 0 ∷ 0 ∷ 0 ∷ 4 ∷ 1 ∷ 1 ∷ 1 ∷ 3 ∷ 0 ∷ 0 ∷ 0
    ∷ 0 ∷ 0 ∷ 0 ∷ 0 ∷ 0 ∷ 0 ∷ 0 ∷ 0 ∷ []

example_written : write example (replicate 32 0xff) ≡ ok example_bytes
unfolding write copy_fields nnrp_rs.Wire.validate_mask
example_written = refl

example_parsed : parse example_bytes ≡ ok example
unfolding parse read_fields nnrp_rs.Wire.validate_mask nnrp_rs.Wire.Buffer.byte_at
    nnrp_rs.Wire.read_u64 nnrp_rs.Wire.Little.from_le nnrp_rs.Wire.read_u16 nnrp_rs.Wire.read_u32
example_parsed = refl

abbrev example_diagnostics : List ℕ
example_diagnostics = 10 ∷ 20 ∷ 30 ∷ []

diagnostics_split :
    parse_with_diagnostics (example_bytes ++ example_diagnostics)
    ≡ ok (example, example_diagnostics)
unfolding parse_with_diagnostics parse read_fields nnrp_rs.Wire.validate_mask
    nnrp_rs.Wire.Buffer.byte_at nnrp_rs.Wire.read_u64 nnrp_rs.Wire.Little.from_le
    nnrp_rs.Wire.read_u32 nnrp_rs.Wire.read_u16
diagnostics_split = refl
