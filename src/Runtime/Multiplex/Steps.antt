-- ===== src/Runtime/Multiplex/Steps.antt =====
-- The rounds of run_driver: each keeps the invariant, and so do any number of them.
use nnrp_rs.Base.{
  ℕ, ◌≡◌, false, List, Option, none, some, inl, inr, arith, ◌==◌, subst, Bool-cases, Option-cases,
  length,
}
use nnrp_rs.Base.Dict
use nnrp_rs.Base.Dict.{get}
use nnrp_rs.Outcome.{Outcome, ok, err, Outcome-cases}
use nnrp_rs.Runtime.Driver.{
  Driver, DriverFailure, unknown_session, PendingSessionPackets, RuntimePacket, Peers, Event, write,
  register, unregister, close, hang_up, incoming, broken, Turn, stay, push, new, Action,
}
use nnrp_rs.Runtime.Multiplex.{
  is_open_ack, step, note_open_ack, pending_entry, buffer, unregistered, routed, on_write,
  on_register, on_close, written, to_control, Run, done, turn,
}
use nnrp_rs.Runtime.Multiplex.Invariant.{
  Inv, new-Inv, forget-Inv, admit-Inv, note_open_ack-Inv, buffer-Inv, IsPending,
}

-- What a round that does not end the loop leaves.
abbrev pub Leaves : (Driver → List Action → Type 0) → Option Driver → List Action → Type 0
Leaves P none actions = Unit
Leaves P (some next) actions = P next actions

abbrev pub After : (Driver → List Action → Type 0) → Turn → Type 0
After P t = Leaves P t.driver t.actions

abbrev InvAfter : Turn → Type 0
InvAfter = After (λ next actions. Inv next)

to_control-Inv :
    (d : Driver) (peers : Peers) (packet : RuntimePacket)
    → Inv d
    → InvAfter (to_control d peers packet)
to_control-Inv d peers packet inv = elim (Bool-cases peers.control_open) [
  | inl e ↦ rw e inv
  | inr e ↦ elim (Bool-cases (length d.sessions == 0)) [
    | inl z ↦ rw (e, z) tt
    | inr z ↦ rw (e, z) inv
  ]
]

buffer-InvAfter :
    (d : Driver) (peers : Peers) (packet : RuntimePacket)
    → Inv d
    → is_open_ack packet.header.message_type ≡ false
    → get packet.header.session_id d.sessions ≡ none
    → InvAfter (buffer d peers packet)
unfolding buffer
buffer-InvAfter d peers packet inv data_ free =
    elim (Outcome-cases (push (pending_entry d packet.header.session_id) packet)) [
      | inl (r, e) ↦
          rw (e, buffer) (buffer-Inv d inv packet.header.session_id packet r (ground arith) free e)
      | inr (x, e) ↦ rw (e, buffer) tt
    ]

failing-Inv :
    (d : Driver) (error : DriverFailure) → Inv d → Inv (record d { terminal_failure = some error })
failing-Inv d error inv = record {
  sessions_ascend = inv.sessions_ascend;
  awaiting_ascend = inv.awaiting_ascend;
  pending_ascend = inv.pending_ascend;
  apart = inv.apart;
  own = inv.own;
}

unregistered-Inv :
    (d : Driver) (peers : Peers) (packet : RuntimePacket)
    → Inv d
    → get packet.header.session_id d.sessions ≡ none
    → InvAfter (unregistered d peers packet)
unfolding unregistered
unregistered-Inv d peers packet inv free =
    elim (Bool-cases (is_open_ack packet.header.message_type)) [
      | inl ack ↦ rw (ack, unregistered) (ground (arith, to_control-Inv d peers packet inv))
      | inr other ↦
          elim (Bool-cases (Dict.contains_key packet.header.session_id d.awaiting_registration)) [
            | inl awaited ↦
                rw (other, awaited, unregistered) (buffer-InvAfter d peers packet inv other free)
            | inr unknown ↦
                rw (other, unknown, unregistered)
                  (failing-Inv d (unknown_session packet.header.session_id) inv)
          ]
    ]

routed-Inv :
    (d : Driver) (peers : Peers) (packet : RuntimePacket) → Inv d → InvAfter (routed d peers packet)
unfolding routed
routed-Inv d peers packet inv = elim (Bool-cases (packet.header.session_id == 0)) [
  | inl z ↦ rw (z, routed) (to_control-Inv d peers packet inv)
  | inr nz ↦ elim (Option-cases (get packet.header.session_id d.sessions)) [
    | inl free ↦ rw (nz, free, routed) (unregistered-Inv d peers packet inv free)
    | inr (channel, found) ↦ elim (Bool-cases (peers.session_open channel)) [
      | inl o ↦ rw (nz, found, routed, o) inv
      | inr c ↦ rw (nz, found, routed, c) (forget-Inv d inv packet.header.session_id)
    ]
  ]
]

written-Inv :
    (d : Driver) (peers : Peers) (packet : RuntimePacket)
    (answer : Outcome DriverFailure (Unit {0}))
    → Inv d
    → InvAfter (written d peers packet answer)
written-Inv d peers packet (ok u) inv = inv
written-Inv d peers packet (err e) inv = tt

on_write-Inv :
    (d : Driver) (peers : Peers) (packet : RuntimePacket)
    (answer : Outcome DriverFailure (Unit {0}))
    → Inv d
    → InvAfter (on_write d peers packet answer)
unfolding on_write
on_write-Inv d peers packet answer inv = elim (Option-cases d.terminal_failure) [
  | inl e ↦
      rw (e, on_write)
        (written-Inv (note_open_ack d packet) peers packet answer (note_open_ack-Inv d inv packet))
  | inr (x, e) ↦ rw (e, on_write) inv
]

on_register-Inv :
    (d : Driver) (peers : Peers) (s c : ℕ) → Inv d → InvAfter (on_register d peers s c)
unfolding on_register
on_register-Inv d peers s c inv = elim (Option-cases (get s d.sessions)) [
  | inl e ↦ rw (e, on_register) (admit-Inv d inv s c)
  | inr (x, e) ↦ rw (e, on_register) inv
]

-- CLOSE ends the loop.
pub on_close-After :
    (P : Driver → List Action → Type 0) (d : Driver) (answer : Outcome DriverFailure (Unit {0}))
    → After P (on_close d answer)
on_close-After P d answer = elim (Option-cases d.terminal_failure) [
  | inl e ↦ rw e tt
  | inr (x, e) ↦ rw e tt
]

step-InvAfter : (d : Driver) (peers : Peers) (event : Event) → Inv d → InvAfter (step d peers event)
unfolding step
step-InvAfter d peers (write packet answer) inv = on_write-Inv d peers packet answer inv
step-InvAfter d peers (register s c) inv = on_register-Inv d peers s c inv
step-InvAfter d peers (unregister s) inv = forget-Inv d inv s
step-InvAfter d peers (close answer) inv = on_close-After _ d answer
step-InvAfter d peers hang_up inv = tt
step-InvAfter d peers (incoming packet) inv =
    routed-Inv (note_open_ack d packet) peers packet (note_open_ack-Inv d inv packet)
step-InvAfter d peers (broken error) inv = failing-Inv d error inv

pub step-Inv :
    (d : Driver) (peers : Peers) (event : Event) {next : Driver} {actions : List Action}
    → step d peers event ≡ stay next actions
    → Inv d
    → Inv next
step-Inv d peers event e inv = subst InvAfter e (step-InvAfter d peers event inv)

pub Run-Inv :
    {d last : Driver} {events : List (Peers × Event)} {actions : List Action}
    → Run d events last actions
    → Inv d
    → Inv last
Run-Inv (done d) inv = inv
Run-Inv (turn awaited e rest) inv = Run-Inv rest (step-Inv _ _ _ e inv)

-- Whatever a new driver has been through, what it holds back for a session are packets of that session
-- other than SESSION_OPEN_ACK, at most 4096 of them and at most 8 MiB, with their size counted right,
-- and it holds back nothing for a session that is registered.
pub held_back_is_bounded :
    {last : Driver} {events : List (Peers × Event)} {actions : List Action}
    → Run new events last actions
    → ((s : ℕ) (q : PendingSessionPackets) → get s last.pending_sessions ≡ some q → IsPending s q)
      × ((s c : ℕ) → get s last.sessions ≡ some c → get s last.pending_sessions ≡ none)
held_back_is_bounded ran = let inv = Run-Inv ran new-Inv in (inv.own, inv.apart)
