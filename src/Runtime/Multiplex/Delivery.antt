-- ===== src/Runtime/Multiplex/Delivery.antt =====
-- What reaches a session through run_driver: all its packets, in their order, in its own channel.
use nnrp_rs.Base.{
  ℕ, ◌≡◌, ◌≢◌, refl, true, List, [], ◌∷◌, ◌++◌, none, some, inl, inr, arith, filter, All, ◌==◌,
  if◌then◌else◌, subst, Bool-cases, ap, sym, ◌∙◌,
}
use nnrp_rs.Base.Dict.{get}
use nnrp_rs.Runtime.Driver.{Driver, RuntimePacket, Peers, Event, Action, deliver}
use nnrp_rs.Runtime.Multiplex.{Run, done, turn, pending_of}
use nnrp_rs.Runtime.Multiplex.Invariant.{Inv, is_data}
use nnrp_rs.Runtime.Multiplex.Kept.{
  IsExpected, IsUndisturbed, all_delivered, all_received, append-nil,
}
use nnrp_rs.Runtime.Multiplex.Order.{nothing_lost}
use nnrp_rs.Runtime.Multiplex.Channels.{IsHome, IsHomed, All-IsHome-append}
use nnrp_rs.Runtime.Multiplex.Rounds.{step-IsHomed}
use nnrp_rs.Runtime.Multiplex.Steps.{After, step-Inv}

-- The packets that actions put into one channel.
unfoldable pub delivered : (channel : ℕ) → List Action → List RuntimePacket
delivered channel [] = []
delivered channel (deliver c packet ∷ actions) =
    if c == channel then packet ∷ delivered channel actions else delivered channel actions
delivered channel (_ ∷ actions) = delivered channel actions

module _ (s : ℕ) where
  home-delivered :
      (d : Driver) (c : ℕ) (actions : List Action)
      → All (IsHome s d) actions
      → get s d.sessions ≡ some c
      → filter (is_data s) (delivered c actions) ≡ filter (is_data s) (all_delivered actions)
  unfolding delivered all_delivered
  home-delivered d c [] home e = refl
  home-delivered d c (deliver b p ∷ actions) home e =
      let rest = home-delivered d c actions home.1 e in
      elim (Bool-cases (is_data s p)) [
        | inl mine ↦
            let there = home.0 (ground arith) in
            let hit : (b == c) ≡ true = ground arith in rw (hit, mine) (ap (λ ps. p ∷ ps) rest)
        | inr other ↦ elim (Bool-cases (b == c)) [
          | inl hit ↦ rw (hit, other) rest
          | inr miss ↦ rw (miss, other) rest
        ]
      ]
  home-delivered d c (_ ∷ actions) home e = home-delivered d c actions home.1 e

  home-unregistered :
      (d : Driver) (actions : List Action)
      → All (IsHome s d) actions
      → get s d.sessions ≡ none
      → filter (is_data s) (all_delivered actions) ≡ []
  unfolding all_delivered
  home-unregistered d [] home e = refl
  home-unregistered d (deliver b p ∷ actions) home e = elim (Bool-cases (is_data s p)) [
    | inl mine ↦ let there = home.0 (ground arith) in absurd (cc)
    | inr other ↦ rw other (home-unregistered d actions home.1 e)
  ]
  home-unregistered d (_ ∷ actions) home e = home-unregistered d actions home.1 e

  later-IsHome :
      (d last : Driver) (actions : List Action)
      → ((c : ℕ) → get s d.sessions ≡ some c → get s last.sessions ≡ some c)
      → All (IsHome s d) actions
      → All (IsHome s last) actions
  later-IsHome d last [] stays home = tt
  later-IsHome d last (deliver c p ∷ actions) stays home =
      (λ e. stays c (home.0 e), later-IsHome d last actions stays home.1)
  later-IsHome d last (_ ∷ actions) stays home = (tt, later-IsHome d last actions stays home.1)

  Run-IsHomed :
      {d last : Driver} {events : List (Peers × Event)} {actions : List Action}
      → Run d events last actions
      → Inv d
      → All (IsUndisturbed s) events
      → IsHomed s d.sessions last actions
  Run-IsHomed (done d) inv q = record { home = tt; stays = λ c e. e }
  Run-IsHomed (turn {d} {next} {last} {peers} {event} {events} {actions} {later} awaited e rest) inv
        q =
      let first = subst (After (IsHomed s d.sessions)) e (step-IsHomed s d peers event inv q.0) in
      let after = Run-IsHomed rest (step-Inv d peers event e inv) q.1 in
      record {
        home =
            All-IsHome-append s last actions later
              (later-IsHome next last actions after.stays first.home) after.home;
        stays = λ c h. after.stays c (first.stays c h);
      }

  -- On a driver that satisfies the invariant, a session (its identifier is not 0) is being opened or
  -- registered, and rounds follow that do not unregister it, do not end the loop and find no receiver of
  -- a session gone. If it is registered afterwards, its channel has got its packets other than
  -- SESSION_OPEN_ACK, those held back before and then those that have come in, in their order and with
  -- none lost or doubled, and nothing is held back. If it is not, all of them are held back in that
  -- order. None of its packets, SESSION_OPEN_ACK included, is put into another channel.
  pub no_packet_lost :
      {d last : Driver} {events : List (Peers × Event)} {actions : List Action}
      → s ≢ 0
      → Run d events last actions
      → Inv d
      → IsExpected s d
      → All (IsUndisturbed s) events
      → ((c : ℕ)
          → get s last.sessions ≡ some c
          → (filter (is_data s) (delivered c actions)
              ≡ pending_of d s ++ filter (is_data s) (all_received events))
            × (pending_of last s ≡ []))
        × (get s last.sessions ≡ none
            → pending_of last s ≡ pending_of d s ++ filter (is_data s) (all_received events))
        × All (IsHome s last) actions
  no_packet_lost {d} {last} {events} {actions} live ran inv x q =
      let (kept, settled) = nothing_lost s live ran inv x q in
      let homed = Run-IsHomed ran inv q in
      (
        λ c e.
            let all = home-delivered last c actions homed.home e in
            let empty = settled c e in
            (
              all
                  ∙ sym (append-nil (filter (is_data s) (all_delivered actions)))
                  ∙ sym (ap (λ ps. filter (is_data s) (all_delivered actions) ++ ps) empty)
                  ∙ kept,
              empty,
            ),
        (λ e.
            let silent = home-unregistered last actions homed.home e in
            sym (ap (λ ps. ps ++ pending_of last s) silent) ∙ kept),
        homed.home,
      )
