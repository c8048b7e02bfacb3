-- ===== src/Control/Checks.antt =====
-- crates/nnrp-core/src/control.rs: the range checks of single fields.
use nnrp_rs.Base.{ℕ, not, ◌||◌, ◌==◌, leb}
use nnrp_rs.Error.{Result, reject_if, invalid_protocol_combination}

-- Hundredths of a percent, or the largest u16 for an unknown share.
unfoldable pub validate_percent_x100 : ℕ → Result (Unit {0})
validate_percent_x100 value =
    reject_if (not (leb value 10000 || value == 0xffff))
      (invalid_protocol_combination "progress.percent_x100 must be 0..10000 or 0xffff")
