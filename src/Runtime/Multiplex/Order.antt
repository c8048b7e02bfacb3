-- ===== src/Runtime/Multiplex/Order.antt =====
-- The packets of one session in the order in which the driver passes them on, whatever channel it uses.
use nnrp_rs.Base.{
  ℕ, ◌≡◌, ◌≢◌, refl, true, not, ◌&&◌, List, [], ◌∷◌, ◌++◌, some, inl, inr, filter, All, ◌==◌, subst,
  Bool-cases, Option-cases, ap, sym, ◌∙◌,
}
use nnrp_rs.Base.Dict.{get, get-insert}
use nnrp_rs.Outcome.{Outcome, ok, err}
use nnrp_rs.Runtime.Driver.{
  Driver, DriverFailure, RuntimePacket, Peers, Event, write, register, unregister, close, hang_up,
  incoming, broken, Action, complete,
}
use nnrp_rs.Runtime.Multiplex.{
  is_open_ack, step, note_open_ack, routed, on_write, on_register, written, Run, done, turn, drain,
  late_failure, pending_of, packets_of,
}
use nnrp_rs.Runtime.Multiplex.Invariant.{Inv, is_data, filter-append, note_open_ack-Inv}
use nnrp_rs.Runtime.Multiplex.Kept.{
  IsExpected, IsUndisturbed, IsKept, all_delivered, received, all_received, append-nil,
  append_assoc, all_delivered-append, all_delivered-drain, all_delivered-broadcast_failure,
  all_delivered-late_failure, quiet-IsKept, forget-IsKept, admit-IsKept,
}
use nnrp_rs.Runtime.Multiplex.Routing.{routed-IsKept}
use nnrp_rs.Runtime.Multiplex.Steps.{After, step-Inv, on_close-After}

module _ (s : ℕ) (live : s ≢ 0) where
  note_open_ack-IsExpected :
      (d : Driver) (packet : RuntimePacket) → IsExpected s d → IsExpected s (note_open_ack d packet)
  note_open_ack-IsExpected d packet x =
      let t = packet.header.session_id in
      let g = get-insert s t tt d.awaiting_registration in
      elim (Bool-cases (is_open_ack packet.header.message_type && not (t == 0))) [
        | inr miss ↦ rw miss x
        | inl hit ↦ elim (Bool-cases (t == s)) [
          | inl mine ↦ rw hit (inl (rw (g, mine) refl))
          | inr other ↦ rw (hit, g, other) x
        ]
      ]

  note_open_ack-pending :
      (d : Driver) (packet : RuntimePacket)
      → (note_open_ack d packet).pending_sessions ≡ d.pending_sessions
  note_open_ack-pending d packet =
      elim (Bool-cases
        (is_open_ack packet.header.message_type && not (packet.header.session_id == 0))) [
          | inl hit ↦ rw hit refl
          | inr miss ↦ rw miss refl
        ]

  written-IsKept :
      (d : Driver) (peers : Peers) (packet : RuntimePacket)
      (answer : Outcome DriverFailure (Unit {0}))
      → IsExpected s d
      → After (IsKept s (pending_of d s) []) (written d peers packet answer)
  unfolding all_delivered
  written-IsKept d peers packet (ok u) x = quiet-IsKept s live d d [] _ x refl refl refl
  written-IsKept d peers packet (err e) x = tt

  on_write-IsKept :
      (d : Driver) (peers : Peers) (packet : RuntimePacket)
      (answer : Outcome DriverFailure (Unit {0}))
      → IsExpected s d
      → After (IsKept s (pending_of d s) []) (on_write d peers packet answer)
  unfolding on_write all_delivered
  on_write-IsKept d peers packet answer x = elim (Option-cases d.terminal_failure) [
    | inr (error, e) ↦ rw (e, on_write) (quiet-IsKept s live d d [] _ x refl refl refl)
    | inl e ↦
        rw (e, on_write)
          (subst
            (λ ps.
              After (IsKept s (packets_of (get s ps)) [])
                (written (note_open_ack d packet) peers packet answer))
            (note_open_ack-pending d packet)
            (written-IsKept (note_open_ack d packet) peers packet answer
              (note_open_ack-IsExpected d packet x)))
  ]

  all_delivered-admitted :
      (d : Driver) (t c : ℕ)
      → all_delivered (
          drain true c (pending_of d t)
          ++ (late_failure d.terminal_failure true c ++ (complete (ok tt) ∷ [])))
        ≡ pending_of d t
  unfolding all_delivered
  all_delivered-admitted d t c =
      let last : List Action = complete (ok tt) ∷ [] in
      let late = late_failure d.terminal_failure true c in
      rw
        (
          all_delivered-append (drain true c (pending_of d t)) (late ++ last),
          all_delivered-drain c (pending_of d t),
          all_delivered-append late last,
          all_delivered-late_failure d.terminal_failure c,
        )
        (append-nil (pending_of d t))

  on_register-IsKept :
      (d : Driver) (peers : Peers) (t c : ℕ)
      → Inv d
      → IsExpected s d
      → peers.session_open c ≡ true
      → After (IsKept s (pending_of d s) []) (on_register d peers t c)
  unfolding on_register all_delivered
  on_register-IsKept d peers t c inv x is_open = elim (Option-cases (get t d.sessions)) [
    | inl e ↦
        rw (e, on_register, is_open)
          (admit-IsKept s live d t c _ inv x (all_delivered-admitted d t c))
    | inr (b, e) ↦ rw (e, on_register) (quiet-IsKept s live d d [] _ x refl refl refl)
  ]

  step-IsKept :
      (d : Driver) (peers : Peers) (event : Event)
      → Inv d
      → IsExpected s d
      → IsUndisturbed s (peers, event)
      → After (IsKept s (pending_of d s) (received event)) (step d peers event)
  unfolding step
  step-IsKept d peers (write packet answer) inv x q = on_write-IsKept d peers packet answer x
  step-IsKept d peers (register t c) inv x q = on_register-IsKept d peers t c inv x (q.0 c)
  step-IsKept d peers (unregister t) inv x q =
      forget-IsKept s live d t inv x (λ e. q.1 (ap (λ u. unregister u) e))
  step-IsKept d peers (close answer) inv x q = on_close-After _ d answer
  step-IsKept d peers hang_up inv x q = tt
  step-IsKept d peers (incoming packet) inv x q =
      subst
        (λ ps.
          After (IsKept s (packets_of (get s ps)) (packet ∷ []))
            (routed (note_open_ack d packet) peers packet))
        (note_open_ack-pending d packet)
        (routed-IsKept s live (note_open_ack d packet) peers packet (note_open_ack-Inv d inv packet)
          (note_open_ack-IsExpected d packet x) q.0)
  step-IsKept d peers (broken error) inv x q =
      quiet-IsKept s live d _ [] _ x (all_delivered-broadcast_failure d peers error) refl refl

  -- Rounds that do not disturb a session pass its packets on, or hold them back, in their order.
  pub nothing_lost :
      {d last : Driver} {events : List (Peers × Event)} {actions : List Action}
      → Run d events last actions
      → Inv d
      → IsExpected s d
      → All (IsUndisturbed s) events
      → (filter (is_data s) (all_delivered actions) ++ pending_of last s
          ≡ pending_of d s ++ filter (is_data s) (all_received events))
        × ((c : ℕ) → get s last.sessions ≡ some c → pending_of last s ≡ [])
  unfolding all_delivered
  nothing_lost (done d) inv x q =
      (sym (append-nil (pending_of d s)), λ c e. rw (pending_of, inv.apart s c e) refl)
  nothing_lost (turn {d} {next} {last} {peers} {event} {events} {actions} {later} awaited e rest)
        inv x q =
      let kept =
        subst (After (IsKept s (pending_of d s) (received event))) e
          (step-IsKept d peers event inv x q.0) in
      let (held, settled) = nothing_lost rest (step-Inv d peers event e inv) kept.expected q.1 in
      let a = filter (is_data s) (all_delivered actions) in
      let rest_came = filter (is_data s) (all_received events) in
      let came = filter (is_data s) (received event) in
      (
        rw
            (
              all_delivered-append actions later,
              filter-append (is_data s) (all_delivered actions) (all_delivered later),
              append_assoc a (filter (is_data s) (all_delivered later)) (pending_of last s),
              held,
              filter-append (is_data s) (received event) (all_received events),
            )
            (sym (append_assoc a (pending_of next s) rest_came)
              ∙ ap (λ xs. xs ++ rest_came) kept.in_order
              ∙ append_assoc (pending_of d s) came rest_came),
        settled,
      )
