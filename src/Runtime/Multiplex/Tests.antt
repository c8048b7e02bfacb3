-- ===== src/Runtime/Multiplex/Tests.antt =====
-- The driver on a session whose first packet comes in before it registers.
use nnrp_rs.Base.{◌≡◌, ◌≢◌, refl, true, List, [], ◌∷◌, ◌++◌, none, some, inl, arith, filter, ℕ, All}
use nnrp_rs.Base.Dict
use nnrp_rs.Base.Dict.{get}
use nnrp_rs.Outcome.{ok}
use nnrp_rs.Enums.MessageType
use nnrp_rs.Enums.HeaderFlags.{none_set}
use nnrp_rs.Runtime.Driver.{
  Driver, RuntimePacket, PendingSessionPackets, Peers, Event, write, register, unregister, incoming,
  Action, transmit, complete, deliver, new, stay, push,
}
use nnrp_rs.Runtime.Multiplex.{
  Run, done, turn, step, pending_of, on_write, on_register, routed, buffer, unregistered, drain,
  is_open_ack,
}
use nnrp_rs.Runtime.Multiplex.Invariant.{is_data, Inv, IsPending, new-Inv}
use nnrp_rs.Runtime.Multiplex.Steps.{held_back_is_bounded, step-Inv}
use nnrp_rs.Runtime.Multiplex.Kept.{all_received, IsUndisturbed, IsExpected}
use nnrp_rs.Runtime.Multiplex.Channels.{IsHome}
use nnrp_rs.Runtime.Multiplex.Delivery.{delivered, no_packet_lost}

abbrev packet_of : MessageType.MessageType → List ℕ → RuntimePacket
packet_of message_type body = record {
  header = record {
    version_major = 1;
    wire_format = 0;
    message_type = message_type;
    header_len = 40;
    flags = none_set;
    meta_len = 0;
    body_len = 1;
    session_id = 7;
    frame_id = 0;
    view_id = 0;
    route_id = 0;
    trace_id = 0;
  };
  metadata = [];
  body = body;
}

abbrev everyone : Peers
everyone = record { control_open = true; session_open = λ c. true }

abbrev early : RuntimePacket
early = packet_of MessageType.frame_submit (1 ∷ [])

abbrev late : RuntimePacket
late = packet_of MessageType.frame_submit (2 ∷ [])

abbrev arrivals : List (Peers × Event)
arrivals = (everyone, incoming early) ∷ (everyone, register 7 5) ∷ (everyone, incoming late) ∷ []

abbrev opened : Driver
opened = record {
  sessions = [];
  awaiting_registration = (7, tt) ∷ [];
  pending_sessions = [];
  terminal_failure = none;
}

abbrev holding : Driver
holding = record {
  sessions = [];
  awaiting_registration = (7, tt) ∷ [];
  pending_sessions = (7, record { packets = early ∷ []; bytes = 41 }) ∷ [];
  terminal_failure = none;
}

abbrev running : Driver
running = record {
  sessions = (7, 5) ∷ [];
  awaiting_registration = [];
  pending_sessions = [];
  terminal_failure = none;
}

opens :
    step new everyone (write (packet_of MessageType.session_open_ack []) (ok tt))
    ≡ stay opened (transmit (packet_of MessageType.session_open_ack []) ∷ complete (ok tt) ∷ [])
unfolding step on_write new is_open_ack Dict.insert
opens = refl

holds_back : step opened everyone (incoming early) ≡ stay holding []
unfolding step routed unregistered buffer push is_open_ack get Dict.insert Dict.contains_key
holds_back = refl

hands_over :
    step holding everyone (register 7 5) ≡ stay running (deliver 5 early ∷ complete (ok tt) ∷ [])
unfolding step on_register drain get Dict.insert Dict.remove
hands_over = refl

passes_on : step running everyone (incoming late) ≡ stay running (deliver 5 late ∷ [])
unfolding step routed is_open_ack get
passes_on = refl

starts :
    Run new
      ((everyone, write (packet_of MessageType.session_open_ack []) (ok tt))
        ∷ (everyone, incoming early)
        ∷ [])
      holding
      (transmit (packet_of MessageType.session_open_ack []) ∷ complete (ok tt) ∷ [])
unfolding new
starts = turn tt opens (turn refl holds_back (done holding))

abbrev both : List Action
both = deliver 5 early ∷ complete (ok tt) ∷ deliver 5 late ∷ []

arrives : Run opened arrivals running both
arrives = turn refl holds_back (turn tt hands_over (turn refl passes_on (done running)))

nothing_disturbs : All (IsUndisturbed 7) arrivals
nothing_disturbs =
    let stays : (event : Event) → event ≢ unregister 7 → IsUndisturbed 7 (everyone, event) =
      λ event q. ((λ c. refl), q) in
    (
      stays (incoming early) (λ e. absurd (cc)),
      (stays (register 7 5) (λ e. absurd (cc)), (stays (incoming late) (λ e. absurd (cc)), tt)),
    )

opened-Inv : Inv opened
opened-Inv = step-Inv new everyone _ opens new-Inv

opened-IsExpected : IsExpected 7 opened
unfolding get
opened-IsExpected = inl refl

no_packet_lost_example :
    ((c : ℕ)
      → get 7 running.sessions ≡ some c
      → (filter (is_data 7) (delivered c both)
          ≡ pending_of opened 7 ++ filter (is_data 7) (all_received arrivals))
        × (pending_of running 7 ≡ []))
    × (get 7 running.sessions ≡ none
        → pending_of running 7 ≡ pending_of opened 7 ++ filter (is_data 7) (all_received arrivals))
    × All (IsHome 7 running) both
no_packet_lost_example =
    no_packet_lost 7 (omega arith) arrives opened-Inv opened-IsExpected nothing_disturbs

early_before_late : filter (is_data 7) (delivered 5 both) ≡ early ∷ late ∷ []
unfolding delivered is_open_ack
early_before_late = refl

nothing_elsewhere : delivered 6 both ≡ []
unfolding delivered
nothing_elsewhere = refl

held_back_is_bounded_example :
    ((s : ℕ) (q : PendingSessionPackets) → get s holding.pending_sessions ≡ some q → IsPending s q)
    × ((s c : ℕ) → get s holding.sessions ≡ some c → get s holding.pending_sessions ≡ none)
held_back_is_bounded_example = held_back_is_bounded starts
