-- ===== src/Runtime/Multiplex/Channels.antt =====
-- The channels that run_driver puts a session's packets into: the one that the session registered.
use nnrp_rs.Base.{
  ℕ, ◌≡◌, refl, true, List, [], ◌∷◌, ◌++◌, some, inl, inr, arith, All, ◌==◌, subst, Bool-cases,
  Option-cases, length,
}
use nnrp_rs.Base.Dict
use nnrp_rs.Base.Dict.{Dict, get, get-insert, get-remove}
use nnrp_rs.Outcome.{Outcome-cases}
use nnrp_rs.Runtime.Driver.{Driver, unknown_session, RuntimePacket, Peers, push, Action, deliver}
use nnrp_rs.Runtime.Multiplex.{
  is_open_ack, pending_entry, buffer, unregistered, routed, to_control, drain, pending_of,
}
use nnrp_rs.Runtime.Multiplex.Invariant.{Inv, is_data}
use nnrp_rs.Runtime.Multiplex.Kept.{all_delivered, all_delivered-broadcast_failure}
use nnrp_rs.Runtime.Multiplex.Steps.{After}

-- A packet of session `s` is put into the channel under which `s` is registered.
abbrev pub IsHome : ℕ → Driver → Action → Type 0
IsHome s d (deliver channel packet) = packet.header.session_id ≡ s → get s d.sessions ≡ some channel
IsHome s d _ = Unit

-- A round uses the channel of `s` alone for its packets, and leaves `s` its channel.
pub record IsHomed (s : ℕ) (before : Dict ℕ) (next : Driver) (actions : List Action) : Type 0 where
  pub home : All (IsHome s next) actions
  pub stays : (c : ℕ) → get s before ≡ some c → get s next.sessions ≡ some c

pub All-IsHome-append :
    (s : ℕ) (d : Driver) (xs ys : List Action)
    → All (IsHome s d) xs
    → All (IsHome s d) ys
    → All (IsHome s d) (xs ++ ys)
All-IsHome-append s d [] ys hx hy = hy
All-IsHome-append s d (x ∷ xs) ys hx hy = (hx.0, All-IsHome-append s d xs ys hx.1 hy)

pub quiet-IsHome :
    (s : ℕ) (d : Driver) (actions : List Action)
    → all_delivered actions ≡ []
    → All (IsHome s d) actions
unfolding all_delivered
quiet-IsHome s d [] e = tt
quiet-IsHome s d (deliver c p ∷ actions) e = absurd (cc)
quiet-IsHome s d (_ ∷ actions) e = (tt, quiet-IsHome s d actions e)

pub drain-IsHome :
    (s t c : ℕ) (d : Driver) (ps : List RuntimePacket)
    → All (λ p. is_data t p ≡ true) ps
    → get t d.sessions ≡ some c
    → All (IsHome s d) (drain true c ps)
unfolding drain
drain-IsHome s t c d [] named e = tt
drain-IsHome s t c d (p ∷ ps) (n, named) e =
    let from : p.header.session_id ≡ t = ground arith in
    (λ q. subst (λ u. get u d.sessions ≡ some c) q (rw from e), drain-IsHome s t c d ps named e)

pub pending-named : (d : Driver) (t : ℕ) → Inv d → All (λ p. is_data t p ≡ true) (pending_of d t)
pending-named d t inv = elim (Option-cases (get t d.pending_sessions)) [
  | inl e ↦ rw (pending_of, e) tt
  | inr (q, e) ↦ rw (pending_of, e) (inv.own t q e).named
]

module _ (s : ℕ) where
  -- A round that delivers nothing and registers nobody.
  pub quiet-IsHomed :
      (before : Dict ℕ) (next : Driver) (actions : List Action)
      → next.sessions ≡ before
      → all_delivered actions ≡ []
      → IsHomed s before next actions
  quiet-IsHomed before next actions same none_ = record {
    home = quiet-IsHome s next actions none_;
    stays = λ c e. rw same e;
  }

  to_control-IsHomed :
      (d : Driver) (peers : Peers) (packet : RuntimePacket)
      → After (IsHomed s d.sessions) (to_control d peers packet)
  to_control-IsHomed d peers packet = elim (Bool-cases peers.control_open) [
    | inl e ↦ rw e (record { home = (tt, tt); stays = λ c h. h })
    | inr e ↦ elim (Bool-cases (length d.sessions == 0)) [
      | inl z ↦ rw (e, z) tt
      | inr z ↦ rw (e, z) (record { home = tt; stays = λ c h. h })
    ]
  ]

  buffer-IsHomed :
      (d : Driver) (peers : Peers) (packet : RuntimePacket)
      → After (IsHomed s d.sessions) (buffer d peers packet)
  unfolding buffer
  buffer-IsHomed d peers packet =
      elim (Outcome-cases (push (pending_entry d packet.header.session_id) packet)) [
        | inl (r, e) ↦ rw (e, buffer) (record { home = tt; stays = λ c h. h })
        | inr (error, e) ↦ rw (e, buffer) tt
      ]

  unregistered-IsHomed :
      (d : Driver) (peers : Peers) (packet : RuntimePacket)
      → After (IsHomed s d.sessions) (unregistered d peers packet)
  unfolding unregistered
  unregistered-IsHomed d peers packet =
      let t = packet.header.session_id in
      elim (Bool-cases (is_open_ack packet.header.message_type)) [
        | inl ack ↦ rw (ack, unregistered) (ground (arith, to_control-IsHomed d peers packet))
        | inr plain ↦ elim (Bool-cases (Dict.contains_key t d.awaiting_registration)) [
          | inl awaited ↦ rw (plain, awaited, unregistered) (buffer-IsHomed d peers packet)
          | inr unknown ↦
              rw (plain, unknown, unregistered)
                (quiet-IsHomed d.sessions _ _ refl
                  (all_delivered-broadcast_failure d peers (unknown_session t)))
        ]
      ]

  pub routed-IsHomed :
      (d : Driver) (peers : Peers) (packet : RuntimePacket)
      → ((c : ℕ) → peers.session_open c ≡ true)
      → After (IsHomed s d.sessions) (routed d peers packet)
  unfolding routed
  routed-IsHomed d peers packet all_open =
      let t = packet.header.session_id in
      elim (Bool-cases (t == 0)) [
        | inl z ↦ rw (z, routed) (to_control-IsHomed d peers packet)
        | inr nz ↦ elim (Option-cases (get t d.sessions)) [
          | inl free ↦ rw (nz, free, routed) (unregistered-IsHomed d peers packet)
          | inr (c, found) ↦
              rw (nz, found, routed, all_open c)
                (record {
                  home = (λ q. subst (λ u. get u d.sessions ≡ some c) q found, tt);
                  stays = λ b h. h;
                })
        ]
      ]
