-- ===== src/Runtime/Driver.antt =====
-- crates/nnrp-runtime/src/multiplex.rs: the data of run_driver. What a transport answers stands in the
-- event. The transport kind, the same in all failures of a driver, is left out of them, and the texts of
-- failures are constructors.
use nnrp_rs.Base.{
  ℕ, ◌+◌, Bool, ◌||◌, List, [], ◌∷◌, ◌++◌, Option, none, some, String, if◌then◌else◌, ltb, leb,
  length,
}
use nnrp_rs.Base.Dict.{Dict}
use nnrp_rs.Outcome.{Outcome, ok, ok_or, reject_if, ◌>>=◌, ◌>>◌}
use nnrp_rs.Header.{CommonHeader, checked_add, common_header_len}

abbrev pub max_pre_registration_packets : ℕ
max_pre_registration_packets = 4096

abbrev pub max_pre_registration_bytes : ℕ
max_pre_registration_bytes = 8388608

-- crates/nnrp-runtime/src/packet.rs: a packet in its three parts.
pub record RuntimePacket : Type 0 where
  pub header : CommonHeader
  pub metadata : List ℕ
  pub body : List ℕ

pub data DriverFailure : Type 0 where
  byte_count_overflowed limit_exceeded : DriverFailure
  already_registered unknown_session : (session_id : ℕ) → DriverFailure
  reported : String → DriverFailure

pub record PendingSessionPackets : Type 0 where
  pub packets : List RuntimePacket
  pub bytes : ℕ

abbrev pub nothing_pending : PendingSessionPackets
nothing_pending = record { packets = []; bytes = 0 }

-- The size of a packet as `push` counts it, without overflow.
abbrev pub packet_size : RuntimePacket → ℕ
packet_size packet = length packet.metadata + length packet.body + common_header_len

abbrev pub sum : (a b : ℕ) → Outcome DriverFailure ℕ
sum a b = ok_or (checked_add 64 a b) byte_count_overflowed

unfoldable pub push :
    PendingSessionPackets → RuntimePacket → Outcome DriverFailure PendingSessionPackets
push pending packet = do
  content_bytes ← sum (length packet.metadata) (length packet.body)
  packet_bytes ← sum content_bytes common_header_len
  total_bytes ← sum pending.bytes packet_bytes
  reject_if
      (leb max_pre_registration_packets (length pending.packets)
        || ltb max_pre_registration_bytes total_bytes)
      limit_exceeded
  ok (record { packets = pending.packets ++ (packet ∷ []); bytes = total_bytes })

-- The local variables of `run_driver`. A session's sender is known by the number of its channel.
pub record Driver : Type 0 where
  pub sessions : Dict ℕ
  pub awaiting_registration : Dict (Unit {0})
  pub pending_sessions : Dict PendingSessionPackets
  pub terminal_failure : Option DriverFailure

unfoldable pub new : Driver
new = record {
  sessions = [];
  awaiting_registration = [];
  pending_sessions = [];
  terminal_failure = none;
}

-- Which receivers still exist: a send to another channel fails.
pub record Peers : Type 0 where
  pub control_open : Bool
  pub session_open : ℕ → Bool

pub data Event : Type 0 where
  write : RuntimePacket → (answer : Outcome DriverFailure (Unit {0})) → Event
  register : (session_id channel : ℕ) → Event
  unregister : (session_id : ℕ) → Event
  close : (answer : Outcome DriverFailure (Unit {0})) → Event
  -- Every sender of commands is gone.
  hang_up : Event
  incoming : RuntimePacket → Event
  broken : DriverFailure → Event

-- What a round does. A send into a channel without a receiver is no action; a write to the transport is
-- one whether or not it succeeds.
pub data Action : Type 0 where
  deliver : (channel : ℕ) → RuntimePacket → Action
  deliver_failure : (channel : ℕ) → DriverFailure → Action
  control : RuntimePacket → Action
  control_failure : DriverFailure → Action
  transmit : RuntimePacket → Action
  close_transport : Action
  complete : Outcome DriverFailure (Unit {0}) → Action

-- The driver after a round of the loop, or none where the loop ends, and what the round has done.
pub record Turn : Type 0 where
  pub driver : Option Driver
  pub actions : List Action

abbrev pub stay : Driver → List Action → Turn
stay d actions = record { driver = some d; actions = actions }

abbrev pub stop : List Action → Turn
stop actions = record { driver = none; actions = actions }

abbrev pub when : Bool → Action → List Action
when test action = if test then action ∷ [] else []
