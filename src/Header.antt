-- ===== src/Header.antt =====
-- crates/nnrp-core/src/header.rs and version.rs: the common header of every packet.
pub mod Layout
pub mod RoundTrip
pub mod Packet
pub mod Version
mod Tests
use nnrp_rs.Base.{
  ℕ, ◌+◌, ◌^◌, not, List, [], ◌∷◌, if◌then◌else◌, ltb, ◌!=◌, length, take, drop, replicate, Option,
  none, some,
}
use nnrp_rs.Error.{
  Result, ok, ◌>>=◌, ◌>>◌, reject_if, ok_or, invalid_magic, invalid_header_length,
  unsupported_version_major, unsupported_wire_format, message_length_overflow,
  packet_length_mismatch,
}
use nnrp_rs.Enums.MessageType
use nnrp_rs.Enums.MessageType.{MessageType}
use nnrp_rs.Enums.HeaderFlags.{HeaderFlags, none_set, validate_known}
use nnrp_rs.Wire.{
  Write, writes, write_u8, write_u16, write_u32, write_u64, read_u16, read_u32, read_u64,
  require_len, require_destination_len,
}
use nnrp_rs.Wire.Buffer.{byte_at, bytes_eq}

abbrev pub common_header_len : ℕ
common_header_len = 40

abbrev pub current_version_major : ℕ
current_version_major = 1

abbrev pub current_wire_format : ℕ
current_wire_format = 0

-- `b"NNRP"`.
abbrev pub magic : List ℕ
magic = b'N' ∷ b'N' ∷ b'R' ∷ b'P' ∷ []

pub record CommonHeader : Type 0 where
  pub version_major : ℕ
  pub wire_format : ℕ
  pub message_type : MessageType
  pub header_len : ℕ
  pub flags : HeaderFlags
  pub meta_len : ℕ
  pub body_len : ℕ
  pub session_id : ℕ
  pub frame_id : ℕ
  pub view_id : ℕ
  pub route_id : ℕ
  pub trace_id : ℕ

pub new : MessageType → ℕ → ℕ → CommonHeader
new message_type meta_len body_len = record {
  version_major = current_version_major;
  wire_format = current_wire_format;
  message_type = message_type;
  header_len = common_header_len;
  flags = none_set;
  meta_len = meta_len;
  body_len = body_len;
  session_id = 0;
  frame_id = 0;
  view_id = 0;
  route_id = 0;
  trace_id = 0;
}

-- Addition of `width`-bit integers that reports an overflow.
abbrev pub checked_add : (width a b : ℕ) → Option ℕ
checked_add width a b = if ltb (a + b) (2 ^ width) then some (a + b) else none

-- The sum of the lengths is formed on u32, the total on usize, which is taken to have 64 bits.
pub packet_len : CommonHeader → Result ℕ
packet_len h = do
  payload_len ← ok_or (checked_add 32 h.meta_len h.body_len) message_length_overflow
  ok_or (checked_add 64 common_header_len payload_len) message_length_overflow

-- The writes of `write`, in order.
header_writes : CommonHeader → List Write
header_writes h =
    (0, magic)
    ∷ write_u8 4 h.version_major
    ∷ write_u8 5 h.wire_format
    ∷ write_u8 6 (MessageType.as_u8 h.message_type)
    ∷ write_u8 7 h.header_len
    ∷ write_u32 8 h.flags.bits
    ∷ write_u32 12 h.meta_len
    ∷ write_u32 16 h.body_len
    ∷ write_u32 20 h.session_id
    ∷ write_u32 24 h.frame_id
    ∷ write_u16 28 h.view_id
    ∷ write_u16 30 h.route_id
    ∷ write_u64 32 h.trace_id
    ∷ []

copy_fields : CommonHeader → List ℕ → List ℕ
unfolding header_writes
copy_fields h destination = writes (header_writes h) destination

-- The buffer after the call, where it succeeds.
pub write : CommonHeader → List ℕ → Result (List ℕ)
write h destination = do
  require_destination_len destination common_header_len
  reject_if (h.header_len != common_header_len) (invalid_header_length h.header_len)
  validate_known h.flags
  ok (copy_fields h destination)

pub to_bytes : CommonHeader → Result (List ℕ)
unfolding write copy_fields
to_bytes h = write h (replicate common_header_len 0)

-- The literal that `parse` ends with.
pub read_fields : List ℕ → MessageType → CommonHeader
read_fields source message_type = record {
  version_major = byte_at source 4;
  wire_format = byte_at source 5;
  message_type = message_type;
  header_len = byte_at source 7;
  flags = record { bits = read_u32 source 8 };
  meta_len = read_u32 source 12;
  body_len = read_u32 source 16;
  session_id = read_u32 source 20;
  frame_id = read_u32 source 24;
  view_id = read_u16 source 28;
  route_id = read_u16 source 30;
  trace_id = read_u64 source 32;
}

pub parse : List ℕ → Result CommonHeader
parse source = do
  require_len source common_header_len
  reject_if (not (bytes_eq (take 4 source) magic)) invalid_magic
  let version_major = byte_at source 4
  reject_if (version_major != current_version_major) (unsupported_version_major version_major)
  let wire_format = byte_at source 5
  reject_if (wire_format != current_wire_format) (unsupported_wire_format wire_format)
  let header_len = byte_at source 7
  reject_if (header_len != common_header_len) (invalid_header_length header_len)
  let flags : HeaderFlags = record { bits = read_u32 source 8 }
  validate_known flags
  message_type ← MessageType.try_from_u8 (byte_at source 6)
  ok (read_fields source message_type)

-- The header, the metadata and the body.
pub parse_packet : List ℕ → Result (CommonHeader × List ℕ × List ℕ)
parse_packet source = do
  header ← parse source
  declared ← packet_len header
  reject_if (declared != length source) (packet_length_mismatch declared (length source))
  let meta_end = common_header_len + header.meta_len
  ok (header, take header.meta_len (drop common_header_len source), drop meta_end source)
