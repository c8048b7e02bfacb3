-- ===== src/Wire.antt =====
-- Byte buffers, with the helpers that crates/nnrp-core/src/flow.rs, session.rs and control.rs each
-- repeat: little endian reads and writes at an offset, and the checks on lengths, reserved fields
-- and masks. A `&[u8]` is the list of its bytes. Every read and write of the codecs stands behind a
-- check of the buffer's length, so what these functions do out of range (a read gives 0, a write is
-- cut off), where the source would panic, is never reached.
pub mod Buffer
pub mod Little
pub mod Fields
pub mod Codec
use nnrp_rs.Base.{ℕ, ◌-◌, ◌^◌, List, [], ◌∷◌, String, ltb, ◌!=◌, length, take, drop, bit_and}
use nnrp_rs.Error.{
  Result, reject_if, source_too_short, destination_too_short, non_zero_reserved_field,
  reserved_bits_set, declared_length_mismatch, ok, ◌>>◌, ◌>>=◌,
}
use Buffer.{splice}
use Little.{to_le, from_le}

abbrev pub read_le : ℕ → List ℕ → ℕ → ℕ
read_le n source offset = from_le (take n (drop offset source))

unfoldable pub read_u16 : List ℕ → ℕ → ℕ
read_u16 = read_le 2

unfoldable pub read_u32 : List ℕ → ℕ → ℕ
read_u32 = read_le 4

unfoldable pub read_u64 : List ℕ → ℕ → ℕ
read_u64 = read_le 8

-- One write into the buffer: the offset and the bytes.
abbrev pub Write : Type 0
Write = ℕ × List ℕ

abbrev pub write_u8 : ℕ → ℕ → Write
write_u8 offset value = (offset, value ∷ [])

abbrev pub write_u16 : ℕ → ℕ → Write
write_u16 offset value = (offset, to_le 2 value)

abbrev pub write_u32 : ℕ → ℕ → Write
write_u32 offset value = (offset, to_le 4 value)

abbrev pub write_u64 : ℕ → ℕ → Write
write_u64 offset value = (offset, to_le 8 value)

-- Writes in the order of the source.
abbrev pub writes : List Write → List ℕ → List ℕ
writes [] destination = destination
writes ((offset, bytes) ∷ ws) destination = writes ws (splice offset bytes destination)

abbrev pub require_len : List ℕ → ℕ → Result (Unit {0})
require_len source expected =
    reject_if (ltb (length source) expected) (source_too_short expected (length source))

abbrev pub require_destination_len : List ℕ → ℕ → Result (Unit {0})
require_destination_len destination expected =
    reject_if (ltb (length destination) expected)
      (destination_too_short expected (length destination))

abbrev pub validate_zero : String → ℕ → Result (Unit {0})
validate_zero field value = reject_if (value != 0) (non_zero_reserved_field field)

-- `!allowed` on a word of `width` bits is `2 ^ width - 1 - allowed`.
unfoldable pub validate_mask : (width value allowed : ℕ) → Result (Unit {0})
validate_mask width value allowed =
    reject_if (bit_and value (2 ^ width - 1 - allowed) != 0) (reserved_bits_set value allowed)

-- The two helpers of control.rs for what stands behind metadata of a fixed length.
abbrev pub require_declared_len : String → (declared actual : ℕ) → Result (Unit {0})
require_declared_len field declared actual =
    reject_if (declared != actual) (declared_length_mismatch field declared actual)

abbrev pub split_declared_tail :
    List ℕ → (fixed_len declared_tail_len : ℕ) → String → Result (List ℕ)
split_declared_tail source fixed_len declared_tail_len field = do
  require_len source fixed_len
  require_declared_len field declared_tail_len (length source - fixed_len)
  ok (drop fixed_len source)
