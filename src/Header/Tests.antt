-- ===== src/Header/Tests.antt =====
-- The packet of header.rs's tests, and the theorems on the header at that packet.
use nnrp_rs.Base.{ℕ, ◌≡◌, refl, List, [], ◌∷◌, ◌++◌, replicate, length, All, arith, take, drop}
use nnrp_rs.Error.{ok, err, packet_length_mismatch, reserved_bits_set}
use nnrp_rs.Enums.MessageType
use nnrp_rs.Enums.MessageType.{MessageType}
use nnrp_rs.Enums.HeaderFlags.{validate_known}
use nnrp_rs.Wire.Little.{IsByte}
use nnrp_rs.Header.Version.{try_new, current}
use nnrp_rs.Header.{
  CommonHeader, new, write, to_bytes, parse, parse_packet, copy_fields, read_fields, packet_len,
}
use nnrp_rs.Header.RoundTrip.{InRange, parse-write, write-parse}
use nnrp_rs.Header.Packet.{parse_packet_parts, parse_packet-to_bytes}

abbrev header_bytes : List ℕ
header_bytes =
    0x4e ∷ 0x4e ∷ 0x52 ∷ 0x50 ∷ 1 ∷ 0 ∷ 0x17 ∷ 0x28 ∷ 0 ∷ 0 ∷ 0 ∷ 0 ∷ 0x20 ∷ 0 ∷ 0 ∷ 0 ∷ 0 ∷ 0 ∷ 0
    ∷ 0 ∷ 0x2a ∷ 0 ∷ 0 ∷ 0 ∷ 0 ∷ 0 ∷ 0 ∷ 0 ∷ 0 ∷ 0 ∷ 9 ∷ 0 ∷ 0x88 ∷ 0x77 ∷ 0x66 ∷ 0x55 ∷ 0x44 ∷ 0x33
    ∷ 0x22 ∷ 0x11 ∷ []

abbrev metadata_bytes : List ℕ
metadata_bytes =
    1 ∷ 4 ∷ 2 ∷ 0 ∷ 0 ∷ 0 ∷ 2 ∷ 0 ∷ 0 ∷ 0 ∷ 0 ∷ 0 ∷ 0 ∷ 0 ∷ 0 ∷ 0 ∷ 0 ∷ 0 ∷ 0 ∷ 0 ∷ 0x78 ∷ 0 ∷ 0 ∷ 0
    ∷ 7 ∷ 0 ∷ 0 ∷ 0 ∷ 3 ∷ 0 ∷ 0 ∷ 0 ∷ []

abbrev flow_update_header : CommonHeader
flow_update_header = record (new MessageType.flow_update 32 0) {
  session_id = 42;
  route_id = 9;
  trace_id = 0x1122334455667788;
}

flow_update_header-InRange : InRange flow_update_header
unfolding new
flow_update_header-InRange = ground arith

header_written : write flow_update_header (replicate 40 0) ≡ ok header_bytes
unfolding write new copy_fields validate_known MessageType.as_u8
header_written = refl

header_parsed : parse header_bytes ≡ ok flow_update_header
unfolding parse new read_fields nnrp_rs.Wire.Buffer.bytes_eq nnrp_rs.Wire.Buffer.byte_at
    validate_known nnrp_rs.Wire.read_u32 nnrp_rs.Wire.Little.from_le MessageType.try_from_u8
    nnrp_rs.Wire.read_u16 nnrp_rs.Wire.read_u64
header_parsed = refl

parse-write_example : parse header_bytes ≡ ok flow_update_header
unfolding new
parse-write_example =
    parse-write flow_update_header (replicate 40 0) header_bytes flow_update_header-InRange refl
      refl header_written

header_bytes-IsByte : All IsByte header_bytes
header_bytes-IsByte = ground arith

write-parse_example :
    write flow_update_header header_bytes ≡ ok (take 40 header_bytes ++ drop 40 header_bytes)
write-parse_example =
    write-parse header_bytes header_bytes flow_update_header header_bytes-IsByte (omega arith)
      header_parsed

packet_parsed :
    parse_packet (header_bytes ++ metadata_bytes) ≡ ok (flow_update_header, metadata_bytes, [])
unfolding parse_packet parse new read_fields packet_len nnrp_rs.Wire.Buffer.bytes_eq
    nnrp_rs.Wire.Buffer.byte_at validate_known nnrp_rs.Wire.read_u32 nnrp_rs.Wire.Little.from_le
    MessageType.try_from_u8 nnrp_rs.Wire.read_u16 nnrp_rs.Wire.read_u64
packet_parsed = refl

parse_packet_parts_example :
    (parse (header_bytes ++ metadata_bytes) ≡ ok flow_update_header)
    × (length metadata_bytes ≡ flow_update_header.meta_len)
    × (0 ≡ flow_update_header.body_len)
    × (take 40 (header_bytes ++ metadata_bytes) ++ (metadata_bytes ++ [])
        ≡ header_bytes ++ metadata_bytes)
parse_packet_parts_example =
    parse_packet_parts (header_bytes ++ metadata_bytes) metadata_bytes [] flow_update_header
      packet_parsed

header_encoded : to_bytes flow_update_header ≡ ok header_bytes
unfolding to_bytes write new copy_fields validate_known MessageType.as_u8
header_encoded = refl

parse_packet-to_bytes_example :
    parse_packet (header_bytes ++ (metadata_bytes ++ []))
    ≡ ok (flow_update_header, metadata_bytes, [])
unfolding new
parse_packet-to_bytes_example =
    parse_packet-to_bytes flow_update_header header_bytes metadata_bytes []
      flow_update_header-InRange refl refl (omega arith) refl refl header_encoded

-- A packet that is shorter than its header declares.
short_packet_rejected :
    parse_packet (
      0x4e
      ∷ 0x4e
      ∷ 0x52
      ∷ 0x50
      ∷ 1
      ∷ 0
      ∷ MessageType.as_u8 MessageType.ping
      ∷ 40
      ∷ (replicate 4 0 ++ (4 ∷ replicate 29 0)))
    ≡ err (packet_length_mismatch 44 42)
unfolding parse_packet parse new read_fields packet_len nnrp_rs.Wire.Buffer.bytes_eq
    nnrp_rs.Wire.Buffer.byte_at validate_known nnrp_rs.Wire.read_u32 nnrp_rs.Wire.Little.from_le
    MessageType.try_from_u8 MessageType.as_u8
short_packet_rejected = refl

reserved_flags_rejected :
    to_bytes (record (new MessageType.ping 0 0) { flags = record { bits = 0x40 } })
    ≡ err (reserved_bits_set 0x40 0x3f)
unfolding to_bytes write new copy_fields validate_known
reserved_flags_rejected = refl

current_version_accepted : try_new 1 0 ≡ ok current
unfolding try_new current
current_version_accepted = refl
