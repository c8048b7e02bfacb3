-- ===== src/Runtime/Multiplex/Kept.antt =====
-- What a round of run_driver keeps for one session: its packets, in their order.
use nnrp_rs.Base.{
  ℕ, ◌≡◌, ◌≢◌, refl, Bool, true, false, List, [], ◌∷◌, ◌++◌, Option, none, some, ◌⊎◌, inl, inr,
  arith, filter, All, ◌==◌, Bool-cases, Option-cases, length, ap, sym,
}
use nnrp_rs.Base.Dict.{Dict, get, get-insert, get-remove}
use nnrp_rs.Runtime.Driver.{
  Driver, DriverFailure, RuntimePacket, Peers, Event, unregister, incoming, Action, deliver,
}
use nnrp_rs.Runtime.Multiplex.{
  to_control, drain, fail_sessions, broadcast_failure, late_failure, pending_of, forget, admit,
}
use nnrp_rs.Runtime.Multiplex.Invariant.{Inv, is_data}
use nnrp_rs.Runtime.Multiplex.Steps.{After}

-- The packets that actions put into channels of sessions, whichever these are.
unfoldable pub all_delivered : List Action → List RuntimePacket
all_delivered [] = []
all_delivered (deliver channel packet ∷ actions) = packet ∷ all_delivered actions
all_delivered (_ ∷ actions) = all_delivered actions

abbrev pub received : Event → List RuntimePacket
received (incoming packet) = packet ∷ []
received _ = []

abbrev pub all_received : List (Peers × Event) → List RuntimePacket
all_received [] = []
all_received ((peers, event) ∷ events) = received event ++ all_received events

-- The session is being opened, or registered.
abbrev pub IsExpected : ℕ → Driver → Type 0
IsExpected s d = (get s d.awaiting_registration ≡ some tt) ⊎ ((c : ℕ) × (get s d.sessions ≡ some c))

-- A round does not end the session, and finds no receiver gone.
abbrev pub IsUndisturbed : ℕ → Peers × Event → Type 0
IsUndisturbed s (peers, event) = ((c : ℕ) → peers.session_open c ≡ true) × (event ≢ unregister s)

-- What session `s` gets, and what is held back for it afterwards, is what was held back and has come in.
pub record IsKept (s : ℕ) (held came : List RuntimePacket) (next : Driver) (actions : List Action)
    : Type 0 where
  pub expected : IsExpected s next
  pub in_order :
      filter (is_data s) (all_delivered actions) ++ pending_of next s
      ≡ held ++ filter (is_data s) came

pub append-nil : (xs : List RuntimePacket) → xs ++ [] ≡ xs
append-nil [] = refl
append-nil (x ∷ xs) = ap (λ ys. x ∷ ys) (append-nil xs)

pub append_assoc : (xs ys zs : List RuntimePacket) → (xs ++ ys) ++ zs ≡ xs ++ (ys ++ zs)
append_assoc [] ys zs = refl
append_assoc (x ∷ xs) ys zs = ap (λ rest. x ∷ rest) (append_assoc xs ys zs)

pub all_delivered-append :
    (xs ys : List Action) → all_delivered (xs ++ ys) ≡ all_delivered xs ++ all_delivered ys
unfolding all_delivered
all_delivered-append [] ys = refl
all_delivered-append (deliver channel packet ∷ xs) ys =
    ap (λ rest. packet ∷ rest) (all_delivered-append xs ys)
all_delivered-append (_ ∷ xs) ys = all_delivered-append xs ys

pub all_delivered-drain : (c : ℕ) (ps : List RuntimePacket) → all_delivered (drain true c ps) ≡ ps
unfolding all_delivered drain
all_delivered-drain c [] = refl
all_delivered-drain c (p ∷ ps) = ap (λ rest. p ∷ rest) (all_delivered-drain c ps)

all_delivered-fail_sessions :
    (peers : Peers) (sessions : Dict ℕ) (error : DriverFailure)
    → all_delivered (fail_sessions peers sessions error) ≡ []
unfolding all_delivered fail_sessions
all_delivered-fail_sessions peers [] error = refl
all_delivered-fail_sessions peers ((s, c) ∷ sessions) error =
    elim (Bool-cases (peers.session_open c)) [
      | inl o ↦ rw o (all_delivered-fail_sessions peers sessions error)
      | inr q ↦ rw q (all_delivered-fail_sessions peers sessions error)
    ]

pub all_delivered-broadcast_failure :
    (d : Driver) (peers : Peers) (error : DriverFailure)
    → all_delivered (broadcast_failure d peers error) ≡ []
unfolding all_delivered broadcast_failure fail_sessions
all_delivered-broadcast_failure d peers error = elim (Bool-cases peers.control_open) [
  | inl o ↦ rw o (all_delivered-fail_sessions peers d.sessions error)
  | inr q ↦ rw q (all_delivered-fail_sessions peers d.sessions error)
]

pub all_delivered-late_failure :
    (f : Option DriverFailure) (c : ℕ) → all_delivered (late_failure f true c) ≡ []
unfolding all_delivered
all_delivered-late_failure none c = refl
all_delivered-late_failure (some error) c = refl

module _ (s : ℕ) (live : s ≢ 0) where
  -- A round that delivers nothing, and leaves the maps as they are for this session.
  pub quiet-IsKept :
      (d next : Driver) (came : List RuntimePacket) (actions : List Action)
      → IsExpected s next
      → all_delivered actions ≡ []
      → pending_of next s ≡ pending_of d s
      → filter (is_data s) came ≡ []
      → IsKept s (pending_of d s) came next actions
  quiet-IsKept d next came actions x a p f = record {
    expected = x;
    in_order = rw (a, p, f, append-nil (pending_of d s)) refl;
  }

  pub to_control-IsKept :
      (d : Driver) (peers : Peers) (packet : RuntimePacket)
      → IsExpected s d
      → is_data s packet ≡ false
      → After (IsKept s (pending_of d s) (packet ∷ [])) (to_control d peers packet)
  unfolding all_delivered
  to_control-IsKept d peers packet x other = elim (Bool-cases peers.control_open) [
    | inl e ↦ rw e (quiet-IsKept d d (packet ∷ []) _ x refl refl (rw other))
    | inr e ↦ elim (Bool-cases (length d.sessions == 0)) [
      | inl z ↦ rw (e, z) tt
      | inr z ↦ rw (e, z) (quiet-IsKept d d (packet ∷ []) [] x refl refl (rw other))
    ]
  ]

  filter-All :
      (t : RuntimePacket → Bool) (ps : List RuntimePacket)
      → All (λ p. t p ≡ true) ps
      → filter t ps ≡ ps
  filter-All t [] a = refl
  filter-All t (p ∷ ps) (h, a) = rw h (ap (λ rest. p ∷ rest) (filter-All t ps a))

  filter_foreign :
      (t : ℕ) (ps : List RuntimePacket)
      → t ≢ s
      → All (λ p. is_data t p ≡ true) ps
      → filter (is_data s) ps ≡ []
  filter_foreign t [] other a = refl
  filter_foreign t (p ∷ ps) other (h, a) =
      let miss : is_data s p ≡ false = ground arith in rw miss (filter_foreign t ps other a)

  pub forget-IsKept :
      (d : Driver) (t : ℕ)
      → Inv d
      → IsExpected s d
      → t ≢ s
      → IsKept s (pending_of d s) [] (forget d t) []
  unfolding all_delivered
  forget-IsKept d t inv x other =
      let a = get-remove s t 0 d.awaiting_registration inv.awaiting_ascend in
      let b = get-remove s t 0 d.sessions inv.sessions_ascend in
      let p = get-remove s t 0 d.pending_sessions inv.pending_ascend in
      let miss : (t == s) ≡ false = ground arith in
      quiet-IsKept d (forget d t) [] [] (rw (a, b, miss) x) refl (rw (pending_of, p, miss)) refl

  admit-IsExpected : (d : Driver) (t c : ℕ) → Inv d → IsExpected s d → IsExpected s (admit d t c)
  admit-IsExpected d t c inv x =
      let a = get-remove s t 0 d.awaiting_registration inv.awaiting_ascend in
      let b = get-insert s t c d.sessions in
      elim (Bool-cases (t == s)) [ inl hit ↦ inr (c, rw (b, hit)) | inr miss ↦ rw (a, b, miss) x ]

  all_pending : (d : Driver) → Inv d → filter (is_data s) (pending_of d s) ≡ pending_of d s
  all_pending d inv = elim (Option-cases (get s d.pending_sessions)) [
    | inl e ↦ rw (pending_of, e)
    | inr (q, e) ↦ rw (pending_of, e) (filter-All (is_data s) q.packets (inv.own s q e).named)
  ]

  none_pending : (d : Driver) (t : ℕ) → Inv d → t ≢ s → filter (is_data s) (pending_of d t) ≡ []
  none_pending d t inv other = elim (Option-cases (get t d.pending_sessions)) [
    | inl e ↦ rw (pending_of, e)
    | inr (q, e) ↦ rw (pending_of, e) (filter_foreign t q.packets other (inv.own t q e).named)
  ]

  pub admit-IsKept :
      (d : Driver) (t c : ℕ) (actions : List Action)
      → Inv d
      → IsExpected s d
      → all_delivered actions ≡ pending_of d t
      → IsKept s (pending_of d s) [] (admit d t c) actions
  admit-IsKept d t c actions inv x e =
      let p = get-remove s t 0 d.pending_sessions inv.pending_ascend in
      record {
        expected = admit-IsExpected d t c inv x;
        in_order = elim (Bool-cases (t == s)) [
          | inl hit ↦
              let t_is : t ≡ s = ground arith in
              rw (e, pending_of, p, hit, t_is) (ap (λ xs. xs ++ []) (all_pending d inv))
          | inr miss ↦
              rw (e, none_pending d t inv (ground arith), pending_of, p, miss)
                (sym (append-nil (pending_of d s)))
        ];
      }
