-- ===== src/Enums/HeaderFlags.antt =====
-- crates/nnrp-core/src/enums.rs: HeaderFlags, the flag word of a packet header.
use nnrp_rs.Base.{ℕ, ◌-◌, ◌^◌, bit_and, bit_or, ◌!=◌}
use nnrp_rs.Error.{Result, reject_if, reserved_bits_set}

pub record HeaderFlags : Type 0 where
  pub bits : ℕ

abbrev pub none_set : HeaderFlags
none_set = record { bits = 0 }

abbrev pub ack_required : HeaderFlags
ack_required = record { bits = 0x1 }

abbrev pub can_drop : HeaderFlags
can_drop = record { bits = 0x2 }

abbrev pub stale : HeaderFlags
stale = record { bits = 0x4 }

abbrev pub eos : HeaderFlags
eos = record { bits = 0x8 }

abbrev pub retransmit : HeaderFlags
retransmit = record { bits = 0x10 }

abbrev pub keyframe : HeaderFlags
keyframe = record { bits = 0x20 }

abbrev pub known_mask : ℕ
known_mask = bit_or ack_required.bits (
    bit_or can_drop.bits
      (bit_or stale.bits (bit_or eos.bits (bit_or retransmit.bits keyframe.bits))))

-- `!known_mask` on u32 is `2 ^ 32 - 1 - known_mask`.
unfoldable pub validate_known : HeaderFlags → Result (Unit {0})
validate_known f =
    reject_if (bit_and f.bits (2 ^ 32 - 1 - known_mask) != 0) (reserved_bits_set f.bits known_mask)
