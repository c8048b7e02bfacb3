-- ===== src/Runtime/Pressure/Tests.antt =====
-- The pressure state on concrete messages.
use nnrp_rs.Base.{◌≡◌, refl}
use nnrp_rs.Enums.MessageType
use nnrp_rs.Control.Pressure.{PressureMetadata}
use nnrp_rs.Runtime.Pressure.{default, apply_inbound}

abbrev hard : PressureMetadata
hard = record {
  scope_id = 1;
  credit_window = 3;
  pressure_level = 2;
  pressure_reason = 11;
  retry_after_ms = 50;
  flags = 2;
}

received_window : (apply_inbound default MessageType.backpressure hard).0.outbound_credit_window ≡ 3
unfolding apply_inbound default
received_window = refl
