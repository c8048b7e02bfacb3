-- ===== src/Control/Progress/Tests.antt =====
-- The metadata of ProgressMetadata on the wire, at one value.
use nnrp_rs.Base.{ℕ, ◌≡◌, refl, List, [], ◌∷◌, ◌++◌, replicate}
use nnrp_rs.Error.{ok}
use nnrp_rs.Wire.Little.{IsByte}
use nnrp_rs.Control.Progress.{
  ProgressMetadata, parse_with_body, parse, write, copy_fields, read_fields,
}

abbrev example : ProgressMetadata
example = record {
  operation_id = 514;
  progress_sequence = 3;
  stage_code = 260;
  percent_x100 = 517;
  object_id = 6;
  body_bytes = 3;
}

abbrev example_bytes : List ℕ
example_bytes =
    2 ∷ 2 ∷ 0 ∷ 0 ∷ 0 ∷ 0 ∷ 0 ∷ 0 ∷ 3 ∷ 0 ∷ 0 ∷ 0 ∷ 0 ∷ 0 ∷ 0 ∷ 0 ∷ 4 ∷ 1 ∷ 5 ∷ 2 ∷ 6 ∷ 0 ∷ 0 ∷ 0
    ∷ 0 ∷ 0 ∷ 0 ∷ 0 ∷ 3 ∷ 0 ∷ 0 ∷ 0 ∷ []

example_written : write example (replicate 32 0xff) ≡ ok example_bytes
unfolding write copy_fields nnrp_rs.Control.Checks.validate_percent_x100
example_written = refl

example_parsed : parse example_bytes ≡ ok example
unfolding parse read_fields nnrp_rs.Control.Checks.validate_percent_x100 nnrp_rs.Wire.read_u16
    nnrp_rs.Wire.Little.from_le nnrp_rs.Wire.read_u64 nnrp_rs.Wire.read_u32
example_parsed = refl

abbrev example_body : List ℕ
example_body = 10 ∷ 20 ∷ 30 ∷ []

body_split : parse_with_body (example_bytes ++ example_body) ≡ ok (example, example_body)
unfolding parse_with_body parse read_fields nnrp_rs.Control.Checks.validate_percent_x100
    nnrp_rs.Wire.read_u16 nnrp_rs.Wire.Little.from_le nnrp_rs.Wire.read_u32 nnrp_rs.Wire.read_u64
body_split = refl
