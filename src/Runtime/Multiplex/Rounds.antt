-- ===== src/Runtime/Multiplex/Rounds.antt =====
-- A round of run_driver uses the channel of a session alone for its packets, and leaves it its channel.
use nnrp_rs.Base.{
  ℕ, ◌≡◌, ◌≢◌, refl, true, false, not, ◌&&◌, [], ◌∷◌, ◌++◌, none, inl, inr, arith, ◌==◌, subst,
  Bool-cases, Option-cases, ap,
}
use nnrp_rs.Base.Dict.{get, get-insert, get-remove}
use nnrp_rs.Outcome.{Outcome, ok, err}
use nnrp_rs.Runtime.Driver.{
  Driver, DriverFailure, RuntimePacket, Peers, Event, write, register, unregister, close, hang_up,
  incoming, broken, complete,
}
use nnrp_rs.Runtime.Multiplex.{
  is_open_ack, step, note_open_ack, routed, on_write, on_register, written, drain, late_failure,
  pending_of, admit, forget,
}
use nnrp_rs.Runtime.Multiplex.Invariant.{Inv}
use nnrp_rs.Runtime.Multiplex.Kept.{
  IsUndisturbed, all_delivered-broadcast_failure, all_delivered-late_failure,
}
use nnrp_rs.Runtime.Multiplex.Steps.{After, on_close-After}
use nnrp_rs.Runtime.Multiplex.Channels.{
  IsHomed, All-IsHome-append, quiet-IsHome, drain-IsHome, pending-named, quiet-IsHomed,
  routed-IsHomed,
}

module _ (s : ℕ) where
  note_open_ack-sessions :
      (d : Driver) (packet : RuntimePacket) → (note_open_ack d packet).sessions ≡ d.sessions
  note_open_ack-sessions d packet =
      elim (Bool-cases
        (is_open_ack packet.header.message_type && not (packet.header.session_id == 0))) [
          | inl hit ↦ rw hit refl
          | inr miss ↦ rw miss refl
        ]

  written-IsHomed :
      (d : Driver) (peers : Peers) (packet : RuntimePacket)
      (answer : Outcome DriverFailure (Unit {0}))
      → After (IsHomed s d.sessions) (written d peers packet answer)
  written-IsHomed d peers packet (ok u) = record { home = (tt, (tt, tt)); stays = λ c h. h }
  written-IsHomed d peers packet (err e) = tt

  on_write-IsHomed :
      (d : Driver) (peers : Peers) (packet : RuntimePacket)
      (answer : Outcome DriverFailure (Unit {0}))
      → After (IsHomed s d.sessions) (on_write d peers packet answer)
  unfolding on_write
  on_write-IsHomed d peers packet answer = elim (Option-cases d.terminal_failure) [
    | inr (error, e) ↦ rw (e, on_write) (record { home = (tt, tt); stays = λ c h. h })
    | inl e ↦
        rw (e, on_write)
          (subst (λ m. After (IsHomed s m) (written (note_open_ack d packet) peers packet answer))
            (note_open_ack-sessions d packet)
            (written-IsHomed (note_open_ack d packet) peers packet answer))
  ]

  admit-IsHomed :
      (d : Driver) (t c : ℕ)
      → Inv d
      → get t d.sessions ≡ none
      → IsHomed s d.sessions (admit d t c) (
          drain true c (pending_of d t)
          ++ (late_failure d.terminal_failure true c ++ (complete (ok tt) ∷ [])))
  admit-IsHomed d t c inv free = record {
    home =
        All-IsHome-append s (admit d t c) (drain true c (pending_of d t)) _
          (drain-IsHome s t c (admit d t c) (pending_of d t) (pending-named d t inv)
            (let g = get-insert t t c d.sessions in ground arith))
          (All-IsHome-append s (admit d t c) (late_failure d.terminal_failure true c) _
            (quiet-IsHome s (admit d t c) _ (all_delivered-late_failure d.terminal_failure c))
            (tt, tt));
    stays = λ b h.
        let g = get-insert s t c d.sessions in
        elim (Bool-cases (t == s)) [
          | inl hit ↦
              let t_is : t ≡ s = ground arith in
              let f : get s d.sessions ≡ none = rw⁻¹ t_is free in absurd (cc)
          | inr miss ↦ rw (g, miss) h
        ];
  }

  on_register-IsHomed :
      (d : Driver) (peers : Peers) (t c : ℕ)
      → Inv d
      → peers.session_open c ≡ true
      → After (IsHomed s d.sessions) (on_register d peers t c)
  unfolding on_register
  on_register-IsHomed d peers t c inv is_open = elim (Option-cases (get t d.sessions)) [
    | inl e ↦ rw (e, on_register, is_open) (admit-IsHomed d t c inv e)
    | inr (b, e) ↦ rw (e, on_register) (record { home = (tt, tt); stays = λ c h. h })
  ]

  forget-IsHomed : (d : Driver) (t : ℕ) → Inv d → t ≢ s → IsHomed s d.sessions (forget d t) []
  forget-IsHomed d t inv other = record {
    home = tt;
    stays = λ c h.
        let g = get-remove s t 0 d.sessions inv.sessions_ascend in
        let miss : (t == s) ≡ false = ground arith in rw (g, miss) h;
  }

  pub step-IsHomed :
      (d : Driver) (peers : Peers) (event : Event)
      → Inv d
      → IsUndisturbed s (peers, event)
      → After (IsHomed s d.sessions) (step d peers event)
  unfolding step
  step-IsHomed d peers (write packet answer) inv q = on_write-IsHomed d peers packet answer
  step-IsHomed d peers (register t c) inv q = on_register-IsHomed d peers t c inv (q.0 c)
  step-IsHomed d peers (unregister t) inv q =
      forget-IsHomed d t inv (λ e. q.1 (ap (λ u. unregister u) e))
  step-IsHomed d peers (close answer) inv q = on_close-After _ d answer
  step-IsHomed d peers hang_up inv q = tt
  step-IsHomed d peers (incoming packet) inv q =
      subst (λ m. After (IsHomed s m) (routed (note_open_ack d packet) peers packet))
        (note_open_ack-sessions d packet)
        (routed-IsHomed s (note_open_ack d packet) peers packet q.0)
  step-IsHomed d peers (broken error) inv q =
      quiet-IsHomed s d.sessions _ _ refl (all_delivered-broadcast_failure d peers error)
