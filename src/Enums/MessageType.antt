-- ===== src/Enums/MessageType.antt =====
-- crates/nnrp-core/src/enums.rs: MessageType and its codes on the wire.
use nnrp_rs.Base.{◌↔◌, subst, ℕ, ◌≡◌, ◌<◌, refl, List, [], ◌∷◌, arith}
use nnrp_rs.Error.{Result, ok, unknown_message_type}
use nnrp_rs.Enums.Arms.{match_arms, match_arms-code}

pub data MessageType : Type 0 where
  client_hello server_hello_ack session_patch session_patch_ack close : MessageType
  error session_open session_open_ack session_close session_close_ack : MessageType
  frame_submit frame_cancel result_push result_drop cache_put : MessageType
  cache_ack cache_invalidate flow_update result_hint transport_probe : MessageType
  transport_probe_ack session_migrate session_migrate_ack ping pong : MessageType
  cancel abort priority_update deadline expire_at : MessageType
  supersede budget_update progress partial_result backpressure : MessageType
  credit_update capability_negotiation degrade_profile route_hint execution_hint : MessageType
  trace_context result_drop_reason object_declare object_ref object_release : MessageType
  object_patch object_delta cache_reference cache_miss error_recoverable : MessageType
  retry_after : MessageType

-- The discriminants of `repr(u8)`.
unfoldable pub as_u8 : MessageType → ℕ
as_u8 client_hello = 0x01
as_u8 server_hello_ack = 0x02
as_u8 session_patch = 0x03
as_u8 session_patch_ack = 0x04
as_u8 close = 0x05
as_u8 error = 0x06
as_u8 session_open = 0x07
as_u8 session_open_ack = 0x08
as_u8 session_close = 0x09
as_u8 session_close_ack = 0x0a
as_u8 frame_submit = 0x10
as_u8 frame_cancel = 0x11
as_u8 result_push = 0x12
as_u8 result_drop = 0x13
as_u8 cache_put = 0x14
as_u8 cache_ack = 0x15
as_u8 cache_invalidate = 0x16
as_u8 flow_update = 0x17
as_u8 result_hint = 0x18
as_u8 transport_probe = 0x19
as_u8 transport_probe_ack = 0x1a
as_u8 session_migrate = 0x1b
as_u8 session_migrate_ack = 0x1c
as_u8 ping = 0x20
as_u8 pong = 0x21
as_u8 cancel = 0x30
as_u8 abort = 0x31
as_u8 priority_update = 0x32
as_u8 deadline = 0x33
as_u8 expire_at = 0x34
as_u8 supersede = 0x35
as_u8 budget_update = 0x36
as_u8 progress = 0x37
as_u8 partial_result = 0x38
as_u8 backpressure = 0x39
as_u8 credit_update = 0x3a
as_u8 capability_negotiation = 0x3b
as_u8 degrade_profile = 0x3c
as_u8 route_hint = 0x3d
as_u8 execution_hint = 0x3e
as_u8 trace_context = 0x3f
as_u8 result_drop_reason = 0x40
as_u8 object_declare = 0x41
as_u8 object_ref = 0x42
as_u8 object_release = 0x43
as_u8 object_patch = 0x44
as_u8 object_delta = 0x45
as_u8 cache_reference = 0x46
as_u8 cache_miss = 0x47
as_u8 error_recoverable = 0x48
as_u8 retry_after = 0x49

abbrev arms : List (ℕ × MessageType)
arms =
    (0x01, client_hello)
    ∷ (0x02, server_hello_ack)
    ∷ (0x03, session_patch)
    ∷ (0x04, session_patch_ack)
    ∷ (0x05, close)
    ∷ (0x06, error)
    ∷ (0x07, session_open)
    ∷ (0x08, session_open_ack)
    ∷ (0x09, session_close)
    ∷ (0x0a, session_close_ack)
    ∷ (0x10, frame_submit)
    ∷ (0x11, frame_cancel)
    ∷ (0x12, result_push)
    ∷ (0x13, result_drop)
    ∷ (0x14, cache_put)
    ∷ (0x15, cache_ack)
    ∷ (0x16, cache_invalidate)
    ∷ (0x17, flow_update)
    ∷ (0x18, result_hint)
    ∷ (0x19, transport_probe)
    ∷ (0x1a, transport_probe_ack)
    ∷ (0x1b, session_migrate)
    ∷ (0x1c, session_migrate_ack)
    ∷ (0x20, ping)
    ∷ (0x21, pong)
    ∷ (0x30, cancel)
    ∷ (0x31, abort)
    ∷ (0x32, priority_update)
    ∷ (0x33, deadline)
    ∷ (0x34, expire_at)
    ∷ (0x35, supersede)
    ∷ (0x36, budget_update)
    ∷ (0x37, progress)
    ∷ (0x38, partial_result)
    ∷ (0x39, backpressure)
    ∷ (0x3a, credit_update)
    ∷ (0x3b, capability_negotiation)
    ∷ (0x3c, degrade_profile)
    ∷ (0x3d, route_hint)
    ∷ (0x3e, execution_hint)
    ∷ (0x3f, trace_context)
    ∷ (0x40, result_drop_reason)
    ∷ (0x41, object_declare)
    ∷ (0x42, object_ref)
    ∷ (0x43, object_release)
    ∷ (0x44, object_patch)
    ∷ (0x45, object_delta)
    ∷ (0x46, cache_reference)
    ∷ (0x47, cache_miss)
    ∷ (0x48, error_recoverable)
    ∷ (0x49, retry_after)
    ∷ []

unfoldable pub try_from_u8 : ℕ → Result MessageType
try_from_u8 value = match_arms arms (unknown_message_type value) value

pub try_from_u8-as_u8 : (t : MessageType) → try_from_u8 (as_u8 t) ≡ ok t
unfolding try_from_u8 as_u8
try_from_u8-as_u8 client_hello = refl
try_from_u8-as_u8 _ = refl

pub as_u8-try_from_u8 : (value : ℕ) {t : MessageType} → try_from_u8 value ≡ ok t → as_u8 t ≡ value
unfolding try_from_u8 as_u8
as_u8-try_from_u8 value h =
    match_arms-code as_u8 arms (unknown_message_type value) value (omega arith) h

pub as_u8-lt : (t : MessageType) → as_u8 t < 256
unfolding as_u8
as_u8-lt client_hello = omega arith
as_u8-lt _ = omega arith

-- A byte is read as a message type exactly when it is its code.
pub message_type_code_iff :
    (value : ℕ) (t : MessageType) → (try_from_u8 value ≡ ok t) ↔ (as_u8 t ≡ value)
message_type_code_iff value t =
    (as_u8-try_from_u8 value, λ e. subst (λ x. try_from_u8 x ≡ ok t) e (try_from_u8-as_u8 t))
