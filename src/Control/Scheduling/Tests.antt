-- ===== src/Control/Scheduling/Tests.antt =====
-- The metadata of SchedulingMetadata on the wire, at one value.
use nnrp_rs.Base.{ℕ, ◌≡◌, refl, List, [], ◌∷◌, replicate}
use nnrp_rs.Error.{ok}
use nnrp_rs.Wire.Little.{IsByte}
use nnrp_rs.Control.Scheduling.{SchedulingMetadata, parse, write, copy_fields, read_fields}

abbrev example : SchedulingMetadata
example = record {
  operation_id = 514;
  control_sequence = 3;
  priority_class = 260;
  priority_delta = 517;
  deadline_unix_ms = 6;
  flags = 1;
}

abbrev example_bytes : List ℕ
example_bytes =
    2 ∷ 2 ∷ 0 ∷ 0 ∷ 0 ∷ 0 ∷ 0 ∷ 0 ∷ 3 ∷ 0 ∷ 0 ∷ 0 ∷ 0 ∷ 0 ∷ 0 ∷ 0 ∷ 4 ∷ 1 ∷ 5 ∷ 2 ∷ 6 ∷ 0 ∷ 0 ∷ 0
    ∷ 0 ∷ 0 ∷ 0 ∷ 0 ∷ 1 ∷ 0 ∷ 0 ∷ 0 ∷ []

example_written : write example (replicate 32 0xff) ≡ ok example_bytes
unfolding write copy_fields nnrp_rs.Wire.validate_mask
example_written = refl

example_parsed : parse example_bytes ≡ ok example
unfolding parse read_fields nnrp_rs.Wire.validate_mask nnrp_rs.Wire.read_u32
    nnrp_rs.Wire.Little.from_le nnrp_rs.Wire.read_u64 nnrp_rs.Wire.read_u16
example_parsed = refl
