-- ===== src/Runtime/Multiplex/Invariant.antt =====
-- The invariant of the driver's three maps: what a session that is not registered yet has pending.
use nnrp_rs.Base.{
  ℕ, ◌+◌, ◌≤◌, ◌<◌, ◌≡◌, refl, Bool, true, not, ◌&&◌, List, [], ◌∷◌, ◌++◌, none, some, inl, inr,
  arith, filter, All, length, ◌==◌, subst, Bool-cases, Option-cases, length-append,
}
use nnrp_rs.Base.Dict.{get, insert, Ascends, Above-insert, Above-remove, get-insert, get-remove}
use nnrp_rs.Outcome.{ok}
use nnrp_rs.Runtime.Driver.{
  Driver, PendingSessionPackets, RuntimePacket, push, packet_size, new, nothing_pending,
  max_pre_registration_bytes, max_pre_registration_packets,
}
use nnrp_rs.Runtime.Multiplex.{is_open_ack, forget, admit, note_open_ack, pending_entry}

-- A packet of session `s`, other than the answer that opens it.
abbrev pub is_data : ℕ → RuntimePacket → Bool
is_data s packet = (packet.header.session_id == s) && not (is_open_ack packet.header.message_type)

abbrev pub total_size : List RuntimePacket → ℕ
total_size [] = 0
total_size (packet ∷ packets) = packet_size packet + total_size packets

-- What may be pending for session `s`.
pub record IsPending (s : ℕ) (q : PendingSessionPackets) : Type 0 where
  pub named : All (λ packet. is_data s packet ≡ true) q.packets
  pub counted : q.bytes ≡ total_size q.packets
  pub few : length q.packets ≤ max_pre_registration_packets
  pub small : q.bytes ≤ max_pre_registration_bytes

pub record Inv (d : Driver) : Type 0 where
  pub sessions_ascend : Ascends d.sessions
  pub awaiting_ascend : Ascends d.awaiting_registration
  pub pending_ascend : Ascends d.pending_sessions
  -- A registered session has nothing pending.
  pub apart : (s c : ℕ) → get s d.sessions ≡ some c → get s d.pending_sessions ≡ none
  pub own : (s : ℕ) (q : PendingSessionPackets) → get s d.pending_sessions ≡ some q → IsPending s q

All-push :
    (s : ℕ) (packet : RuntimePacket) (xs : List RuntimePacket)
    → All (λ p. is_data s p ≡ true) xs
    → is_data s packet ≡ true
    → All (λ p. is_data s p ≡ true) (xs ++ (packet ∷ []))
All-push s packet [] a e = (e, tt)
All-push s packet (x ∷ xs) (h, a) e = (h, All-push s packet xs a e)

pub filter-append :
    (t : RuntimePacket → Bool) (xs ys : List RuntimePacket)
    → filter t (xs ++ ys) ≡ filter t xs ++ filter t ys
filter-append t [] ys = refl
filter-append t (x ∷ xs) ys = ground (arith, filter-append t xs ys)

total_size-append :
    (xs ys : List RuntimePacket) → total_size (xs ++ ys) ≡ total_size xs + total_size ys
total_size-append [] ys = omega arith
total_size-append (x ∷ xs) ys = omega (arith, total_size-append xs ys)

pub push_ok :
    (q r : PendingSessionPackets) (packet : RuntimePacket)
    → push q packet ≡ ok r
    → (r.packets ≡ q.packets ++ (packet ∷ []))
      × (r.bytes ≡ q.bytes + packet_size packet)
      × (length q.packets < max_pre_registration_packets)
      × (r.bytes ≤ max_pre_registration_bytes)
unfolding push
push_ok q r packet e = ground arith

push-IsPending :
    (s : ℕ) (q r : PendingSessionPackets) (packet : RuntimePacket)
    → IsPending s q
    → is_data s packet ≡ true
    → push q packet ≡ ok r
    → IsPending s r
push-IsPending s q r packet p mine e =
    let (packets, bytes, room, small) = push_ok q r packet e in
    let t = total_size-append q.packets (packet ∷ []) in
    let l = length-append q.packets (packet ∷ []) in
    let counted = p.counted in
    record {
      named = rw packets (All-push s packet q.packets p.named mine);
      counted = rw (bytes, packets, t) (omega arith);
      few = rw (packets, l) (omega arith);
      small = small;
    }

pub new-Inv : Inv new
unfolding new get
new-Inv = record {
  sessions_ascend = tt;
  awaiting_ascend = tt;
  pending_ascend = tt;
  apart = λ s c e. refl;
  own = λ s q e. absurd (cc);
}

nothing-IsPending : (s : ℕ) → IsPending s nothing_pending
nothing-IsPending s = record { named = tt; counted = refl; few = omega arith; small = omega arith }

module _ (d : Driver) (inv : Inv d) where
  pub forget-Inv : (s : ℕ) → Inv (forget d s)
  forget-Inv s = record {
    sessions_ascend = Above-remove 0 s d.sessions inv.sessions_ascend;
    awaiting_ascend = Above-remove 0 s d.awaiting_registration inv.awaiting_ascend;
    pending_ascend = Above-remove 0 s d.pending_sessions inv.pending_ascend;
    apart = λ t c e.
        let g = get-remove t s 0 d.sessions inv.sessions_ascend in
        let h = get-remove t s 0 d.pending_sessions inv.pending_ascend in
        let i = inv.apart t c in ground arith;
    own = λ t q e.
        let h = get-remove t s 0 d.pending_sessions inv.pending_ascend in
        inv.own t q (ground arith);
  }

  pub admit-Inv : (s c : ℕ) → Inv (admit d s c)
  admit-Inv s c = record {
    sessions_ascend = Above-insert 0 s c d.sessions (omega arith) inv.sessions_ascend;
    awaiting_ascend = Above-remove 0 s d.awaiting_registration inv.awaiting_ascend;
    pending_ascend = Above-remove 0 s d.pending_sessions inv.pending_ascend;
    apart = λ t b e.
        let g = get-insert t s c d.sessions in
        let h = get-remove t s 0 d.pending_sessions inv.pending_ascend in
        let i = inv.apart t b in ground arith;
    own = λ t q e.
        let h = get-remove t s 0 d.pending_sessions inv.pending_ascend in
        inv.own t q (ground arith);
  }

  pub note_open_ack-Inv : (packet : RuntimePacket) → Inv (note_open_ack d packet)
  note_open_ack-Inv packet =
      elim (Bool-cases
        (is_open_ack packet.header.message_type && not (packet.header.session_id == 0))) [
          | inl hit ↦ rw hit (record {
            sessions_ascend = inv.sessions_ascend;
            awaiting_ascend =
                Above-insert 0 packet.header.session_id tt d.awaiting_registration (omega arith)
                  inv.awaiting_ascend;
            pending_ascend = inv.pending_ascend;
            apart = inv.apart;
            own = inv.own;
          })
          | inr miss ↦ rw miss inv
        ]

  pending_entry-IsPending : (s : ℕ) → IsPending s (pending_entry d s)
  pending_entry-IsPending s = elim (Option-cases (get s d.pending_sessions)) [
    | inl e ↦ rw (e, pending_entry) (nothing-IsPending s)
    | inr (q, e) ↦ rw (e, pending_entry) (inv.own s q e)
  ]

  pub buffer-Inv :
      (s : ℕ) (packet : RuntimePacket) (r : PendingSessionPackets)
      → is_data s packet ≡ true
      → get s d.sessions ≡ none
      → push (pending_entry d s) packet ≡ ok r
      → Inv (record d { pending_sessions = insert s r d.pending_sessions })
  buffer-Inv s packet r mine free e = record {
    sessions_ascend = inv.sessions_ascend;
    awaiting_ascend = inv.awaiting_ascend;
    pending_ascend = Above-insert 0 s r d.pending_sessions (omega arith) inv.pending_ascend;
    apart = λ t c h.
        let g = get-insert t s r d.pending_sessions in let i = inv.apart t c h in ground arith;
    own = λ t q h.
        let g = get-insert t s r d.pending_sessions in
        let fresh =
          push-IsPending s (pending_entry d s) r packet (pending_entry-IsPending s) mine e in
        elim (Bool-cases (s == t)) [
          | inl same ↦
              let t_is : s ≡ t = ground arith in
              let q_is : r ≡ q = ground arith in
              subst (λ u. IsPending u q) t_is (subst (λ v. IsPending s v) q_is fresh)
          | inr other ↦ inv.own t q (ground arith)
        ];
  }
