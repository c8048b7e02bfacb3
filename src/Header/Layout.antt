-- ===== src/Header/Layout.antt =====
-- The bytes of a header, field after field, and that CommonHeader::write lays out exactly these.
use nnrp_rs.Base.{ℕ, ◌≤◌, ◌≡◌, refl, ◌↔◌, List, [], ◌∷◌, ◌++◌, arith, length, drop}
use nnrp_rs.Error.{ok}
use nnrp_rs.Enums.MessageType
use nnrp_rs.Enums.HeaderFlags.{validate_known}
use nnrp_rs.Wire.Buffer.{by_bytes}
use nnrp_rs.Wire.Little.{to_le}
use nnrp_rs.Header.{CommonHeader, magic, common_header_len, copy_fields, write}

unfoldable pub layout : CommonHeader → List ℕ
layout h =
    magic
    ++ h.version_major ∷ h.wire_format ∷ MessageType.as_u8 h.message_type ∷ h.header_len ∷ []
    ++ to_le 4 h.flags.bits
    ++ to_le 4 h.meta_len
    ++ to_le 4 h.body_len
    ++ to_le 4 h.session_id
    ++ to_le 4 h.frame_id
    ++ to_le 2 h.view_id
    ++ to_le 2 h.route_id
    ++ to_le 8 h.trace_id

copy_fields-layout :
    (h : CommonHeader) (d : List ℕ)
    → common_header_len ≤ length d
    → copy_fields h d ≡ layout h ++ drop common_header_len d
unfolding copy_fields layout
copy_fields-layout h =
    by_bytes (λ d. copy_fields h d ≡ layout h ++ drop common_header_len d) common_header_len
      (λ v rest. refl)

-- When `write` succeeds, and with which buffer.
pub write_iff :
    (h : CommonHeader) (d b : List ℕ)
    → (write h d ≡ ok b) ↔ (
        (common_header_len ≤ length d)
        × (h.header_len ≡ common_header_len)
        × (validate_known h.flags ≡ ok tt)
        × (b ≡ layout h ++ drop common_header_len d))
unfolding write
write_iff h d b =
    (λ e. ground (arith, copy_fields-layout h d), λ e. ground (arith, copy_fields-layout h d))
