-- ===== src/Enums/Tests.antt =====
-- Codes and results of single values.
use nnrp_rs.Base.{◌≡◌, ◌≢◌, ◌⊎◌, ◌↔◌, refl, none, true, false}
use nnrp_rs.Error.{ok, err, unknown_message_type}
use nnrp_rs.OperationState.{OperationState, is_terminal}
use nnrp_rs.Enums.MessageType
use nnrp_rs.Enums.MessageType.{MessageType, message_type_code_iff}
use nnrp_rs.Enums.ResultTerminalState.{from_operation_state, from_operation_state_lem}

frame_submit_code :
    (MessageType.try_from_u8 0x10 ≡ ok MessageType.frame_submit)
    ↔ (MessageType.as_u8 MessageType.frame_submit ≡ 0x10)
frame_submit_code = message_type_code_iff 0x10 MessageType.frame_submit

unknown_code : MessageType.try_from_u8 0 ≡ err (unknown_message_type 0)
unfolding MessageType.try_from_u8
unknown_code = refl

ended_states :
    ((is_terminal OperationState.failed ≡ true)
      ↔ (from_operation_state OperationState.failed ≢ none))
    × ((OperationState.failed ≡ OperationState.cancelled)
        ⊎ ((from_operation_state OperationState.failed
              ≢ from_operation_state OperationState.cancelled)
            ⊎ (is_terminal OperationState.failed ≡ false)))
ended_states = from_operation_state_lem OperationState.failed OperationState.cancelled
