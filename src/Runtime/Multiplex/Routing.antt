-- ===== src/Runtime/Multiplex/Routing.antt =====
-- An incoming packet on its way to its session: run_driver loses none of a session's packets.
use nnrp_rs.Base.{
  ℕ, ◌≡◌, ◌≢◌, refl, true, false, [], ◌∷◌, Option, none, some, inl, inr, arith, ◌==◌, Bool-cases,
  Option-cases, is_some, sym,
}
use nnrp_rs.Base.Dict
use nnrp_rs.Base.Dict.{Dict, get, insert, get-insert, get-remove, contains_key_iff}
use nnrp_rs.Outcome.{Outcome-cases}
use nnrp_rs.Runtime.Driver.{
  Driver, unknown_session, PendingSessionPackets, RuntimePacket, Peers, push,
}
use nnrp_rs.Runtime.Multiplex.{
  is_open_ack, pending_entry, buffer, unregistered, routed, pending_of, packets_of, or_default,
}
use nnrp_rs.Runtime.Multiplex.Invariant.{Inv, is_data, push_ok}
use nnrp_rs.Runtime.Multiplex.Kept.{
  IsExpected, IsKept, all_delivered, append-nil, all_delivered-broadcast_failure, quiet-IsKept,
  to_control-IsKept,
}
use nnrp_rs.Runtime.Multiplex.Steps.{After}

module _ (s : ℕ) (live : s ≢ 0) where
  or_default-packets : (o : Option PendingSessionPackets) → (or_default o).packets ≡ packets_of o
  or_default-packets none = refl
  or_default-packets (some q) = refl

  buffer-IsKept :
      (d : Driver) (peers : Peers) (packet : RuntimePacket)
      → IsExpected s d
      → is_open_ack packet.header.message_type ≡ false
      → After (IsKept s (pending_of d s) (packet ∷ [])) (buffer d peers packet)
  unfolding buffer all_delivered
  buffer-IsKept d peers packet x plain =
      let t = packet.header.session_id in
      elim (Outcome-cases (push (pending_entry d t) packet)) [
        | inr (error, e) ↦ rw (e, buffer) tt
        | inl (r, e) ↦
            let g = get-insert s t r d.pending_sessions in
            let grown = (push_ok (pending_entry d t) r packet e).0 in
            let same = or_default-packets (get t d.pending_sessions) in
            rw (e, buffer)
              (record {
                expected = x;
                in_order = elim (Bool-cases (t == s)) [
                  | inl hit ↦
                      let t_is : t ≡ s = ground arith in
                      rw (pending_of, g, hit, plain, grown, same, t_is) refl
                  | inr miss ↦ rw (pending_of, g, miss) (sym (append-nil (pending_of d s)))
                ];
              })
      ]

  unexpected :
      (d : Driver) (packet : RuntimePacket)
      → IsExpected s d
      → get packet.header.session_id d.sessions ≡ none
      → Dict.contains_key packet.header.session_id d.awaiting_registration ≡ false
      → is_data s packet ≡ false
  unexpected d packet x free unknown =
      let t = packet.header.session_id in
      let known = contains_key_iff t d.awaiting_registration in
      elim (Bool-cases (t == s)) [
        | inr miss ↦ ground arith
        | inl hit ↦
            let t_is : t ≡ s = ground arith in
            elim x [
              | inl a ↦
                  let b : get t d.awaiting_registration ≡ some tt = rw t_is a in
                  let c : is_some (get t d.awaiting_registration) ≡ true = rw b refl in ground arith
              | inr (c, a) ↦ let b : get t d.sessions ≡ some c = rw t_is a in absurd (cc)
            ]
      ]

  unregistered-IsKept :
      (d : Driver) (peers : Peers) (packet : RuntimePacket)
      → IsExpected s d
      → get packet.header.session_id d.sessions ≡ none
      → After (IsKept s (pending_of d s) (packet ∷ [])) (unregistered d peers packet)
  unfolding unregistered
  unregistered-IsKept d peers packet x free =
      let t = packet.header.session_id in
      elim (Bool-cases (is_open_ack packet.header.message_type)) [
        | inl ack ↦
            let other : is_data s packet ≡ false = ground arith in
            rw (ack, unregistered) (ground (arith, to_control-IsKept s live d peers packet x other))
        | inr plain ↦ elim (Bool-cases (Dict.contains_key t d.awaiting_registration)) [
          | inl awaited ↦ rw (plain, awaited, unregistered) (buffer-IsKept d peers packet x plain)
          | inr unknown ↦
              let other = unexpected d packet x free unknown in
              rw (plain, unknown, unregistered)
                (quiet-IsKept s live d _ (packet ∷ []) _ x
                  (all_delivered-broadcast_failure d peers (unknown_session t)) refl (rw other))
        ]
      ]

  pub routed-IsKept :
      (d : Driver) (peers : Peers) (packet : RuntimePacket)
      → Inv d
      → IsExpected s d
      → ((c : ℕ) → peers.session_open c ≡ true)
      → After (IsKept s (pending_of d s) (packet ∷ [])) (routed d peers packet)
  unfolding routed all_delivered
  routed-IsKept d peers packet inv x all_open =
      let t = packet.header.session_id in
      elim (Bool-cases (t == 0)) [
        | inl z ↦
            let other : is_data s packet ≡ false = ground arith in
            rw (z, routed) (to_control-IsKept s live d peers packet x other)
        | inr nz ↦ elim (Option-cases (get t d.sessions)) [
          | inl free ↦ rw (nz, free, routed) (unregistered-IsKept d peers packet x free)
          | inr (c, found) ↦
              rw (nz, found, routed, all_open c)
                (record {
                  expected = x;
                  in_order = elim (Bool-cases (is_data s packet)) [
                    | inl mine ↦
                        let t_is : t ≡ s = ground arith in
                        let e = inv.apart s c (rw⁻¹ t_is found) in rw (mine, pending_of, e) refl
                    | inr other ↦ rw other (sym (append-nil (pending_of d s)))
                  ];
                })
        ]
      ]
