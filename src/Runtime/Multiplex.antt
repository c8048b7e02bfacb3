-- ===== src/Runtime/Multiplex.antt =====
-- crates/nnrp-runtime/src/multiplex.rs: run_driver, the task that shares one transport between the
-- sessions of a connection. Each round of its loop is a step that takes an event and gives the driver
-- after it and the actions in their order; within a round a receiver exists or it does not.

pub mod Invariant
pub mod Steps
pub mod Kept
pub mod Routing
pub mod Order
pub mod Channels
pub mod Rounds
pub mod Delivery
mod Tests
use nnrp_rs.Base.{
  ℕ, ◌+◌, Bool, true, false, not, ◌&&◌, ◌||◌, List, [], ◌∷◌, ◌++◌, Option, none, some, String,
  if◌then◌else◌, ◌==◌, ltb, leb, length, ◌≡◌,
}
use nnrp_rs.Base.Dict
use nnrp_rs.Base.Dict.{Dict}
use nnrp_rs.Runtime.Driver.{
  Action, Driver, DriverFailure, Event, Peers, PendingSessionPackets, RuntimePacket, Turn,
  already_registered, broken, byte_count_overflowed, close, close_transport, complete, control,
  control_failure, deliver, deliver_failure, hang_up, incoming, limit_exceeded, new,
  nothing_pending, packet_size, push, register, reported, stay, stop, sum, transmit,
  unknown_session, unregister, when, write,
}
use nnrp_rs.Outcome.{Outcome, ok, err, ok_or, reject_if, ◌>>=◌, ◌>>◌}
use nnrp_rs.Enums.MessageType
use nnrp_rs.Enums.MessageType.{MessageType}
use nnrp_rs.Header.{CommonHeader, checked_add, common_header_len}

-- The loop of `broadcast_failure` over the sessions.
pub fail_sessions : Peers → Dict ℕ → DriverFailure → List Action
fail_sessions peers [] error = []
fail_sessions peers ((session_id, channel) ∷ sessions) error =
    when (peers.session_open channel) (deliver_failure channel error)
    ++ fail_sessions peers sessions error

pub broadcast_failure : Driver → Peers → DriverFailure → List Action
broadcast_failure d peers error =
    when peers.control_open (control_failure error) ++ fail_sessions peers d.sessions error

pub is_open_ack : MessageType → Bool
is_open_ack MessageType.session_open_ack = true
is_open_ack _ = false

-- A session that is being opened is awaited.
abbrev pub note_open_ack : Driver → RuntimePacket → Driver
note_open_ack d packet =
    if is_open_ack packet.header.message_type && not (packet.header.session_id == 0)
    then record d {
      awaiting_registration = Dict.insert packet.header.session_id tt d.awaiting_registration;
    }
    else d

abbrev pub written : Driver → Peers → RuntimePacket → Outcome DriverFailure (Unit {0}) → Turn
written d peers packet (ok u) = stay d (transmit packet ∷ complete (ok u) ∷ [])
written d peers packet (err error) =
    stop (transmit packet ∷ complete (err error) ∷ broadcast_failure d peers error)

pub on_write : Driver → Peers → RuntimePacket → Outcome DriverFailure (Unit {0}) → Turn
on_write d peers packet answer = elim d.terminal_failure [
  | some error ↦ stay d (complete (err error) ∷ [])
  | none ↦ written (note_open_ack d packet) peers packet answer
]

-- The packets of `q` in a channel, as long as its receiver exists.
pub drain : Bool → (channel : ℕ) → List RuntimePacket → List Action
drain is_open channel [] = []
drain is_open channel (packet ∷ packets) =
    when is_open (deliver channel packet) ++ drain is_open channel packets

abbrev pub packets_of : Option PendingSessionPackets → List RuntimePacket
packets_of none = []
packets_of (some pending) = pending.packets

abbrev pub pending_of : Driver → ℕ → List RuntimePacket
pending_of d session_id = packets_of (Dict.get session_id d.pending_sessions)

-- A terminal failure is handed to a session that registers after it.
abbrev pub late_failure : Option DriverFailure → Bool → ℕ → List Action
late_failure none is_open channel = []
late_failure (some error) is_open channel = when is_open (deliver_failure channel error)

-- `forget` and `admit` are what a session's end and its registration do to the three maps.
abbrev pub forget : Driver → ℕ → Driver
forget d session_id = record d {
  sessions = Dict.remove session_id d.sessions;
  awaiting_registration = Dict.remove session_id d.awaiting_registration;
  pending_sessions = Dict.remove session_id d.pending_sessions;
}

abbrev pub admit : Driver → (session_id channel : ℕ) → Driver
admit d session_id channel = record d {
  sessions = Dict.insert session_id channel d.sessions;
  awaiting_registration = Dict.remove session_id d.awaiting_registration;
  pending_sessions = Dict.remove session_id d.pending_sessions;
}

pub on_register : Driver → Peers → (session_id channel : ℕ) → Turn
on_register d peers session_id channel = elim (Dict.get session_id d.sessions) [
  | some occupied ↦ stay d (complete (err (already_registered session_id)) ∷ [])
  | none ↦ stay (admit d session_id channel) (
      drain (peers.session_open channel) channel (pending_of d session_id)
      ++ (late_failure d.terminal_failure (peers.session_open channel) channel
          ++ (complete (ok tt) ∷ [])))
]

abbrev pub on_close : Driver → Outcome DriverFailure (Unit {0}) → Turn
on_close d answer = elim d.terminal_failure [
  | some error ↦ stop (complete (err error) ∷ [])
  | none ↦ stop (close_transport ∷ complete answer ∷ [])
]

abbrev pub to_control : Driver → Peers → RuntimePacket → Turn
to_control d peers packet =
    if peers.control_open
    then stay d (control packet ∷ [])
    else if length d.sessions == 0
    then stop (close_transport ∷ [])
    else stay d []

-- `pending_sessions.entry(session_id).or_default()`.
abbrev pub or_default : Option PendingSessionPackets → PendingSessionPackets
or_default none = nothing_pending
or_default (some pending) = pending

abbrev pub pending_entry : Driver → ℕ → PendingSessionPackets
pending_entry d session_id = or_default (Dict.get session_id d.pending_sessions)

pub buffer : Driver → Peers → RuntimePacket → Turn
buffer d peers packet = elim (push (pending_entry d packet.header.session_id) packet) [
  | err error ↦ stop (broadcast_failure d peers error)
  | ok pending ↦
      stay
        (record d {
          pending_sessions = Dict.insert packet.header.session_id pending d.pending_sessions;
        })
        []
]

abbrev pub fail_with : Driver → Peers → DriverFailure → Turn
fail_with d peers error =
    stay (record d { terminal_failure = some error }) (broadcast_failure d peers error)

-- A packet of a session that is not registered.
pub unregistered : Driver → Peers → RuntimePacket → Turn
unfolding buffer
unregistered d peers packet =
    if Dict.contains_key packet.header.session_id d.awaiting_registration
      && not (is_open_ack packet.header.message_type)
    then buffer d peers packet
    else if not (is_open_ack packet.header.message_type)
    then fail_with d peers (unknown_session packet.header.session_id)
    else to_control d peers packet

-- A packet of a session, or of none.
pub routed : Driver → Peers → RuntimePacket → Turn
unfolding unregistered
routed d peers packet =
    if packet.header.session_id == 0
    then to_control d peers packet
    else elim (Dict.get packet.header.session_id d.sessions) [
      | none ↦ unregistered d peers packet
      | some channel ↦
          if peers.session_open channel
          then stay d (deliver channel packet ∷ [])
          else stay (forget d packet.header.session_id) []
    ]

pub step : Driver → Peers → Event → Turn
unfolding on_write on_register routed
step d peers (write packet answer) = on_write d peers packet answer
step d peers (register session_id channel) = on_register d peers session_id channel
step d peers (unregister session_id) = stay (forget d session_id) []
step d peers (close answer) = on_close d answer
step d peers hang_up = stop (close_transport ∷ [])
step d peers (incoming packet) = routed (note_open_ack d packet) peers packet
step d peers (broken error) = fail_with d peers error

-- The events that the loop waits for: behind a terminal failure it does not read any more.
abbrev pub IsAwaited : Driver → Event → Type 0
IsAwaited d (incoming packet) = d.terminal_failure ≡ none
IsAwaited d (broken error) = d.terminal_failure ≡ none
IsAwaited d _ = Unit

-- Rounds of the loop, with the actions of all of them.
pub data Run : Driver → List (Peers × Event) → Driver → List Action → Type 0 where
  done : (d : Driver) → Run d [] d []
  turn :
      {d next last : Driver} {peers : Peers} {event : Event} {events : List (Peers × Event)}
      {actions later : List Action}
      → IsAwaited d event
      → step d peers event ≡ stay next actions
      → Run next events last later
      → Run d ((peers, event) ∷ events) last (actions ++ later)
