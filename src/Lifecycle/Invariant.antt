-- ===== src/Lifecycle/Invariant.antt =====
-- What holds of the sessions of a connection between two calls.
use nnrp_rs.Base.{
  ℕ, ◌≡◌, ◌≢◌, refl, inl, inr, true, some, arith, Option-cases, Bool-cases, ◌==◌, List, subst, sym,
  ◌∷◌, [],
}
use nnrp_rs.Base.Dict.{get, set, get-set, get-insert, get-map_values, map_values, insert}
use nnrp_rs.Error.{Result, ok, err}
use nnrp_rs.Lifecycle.{
  ConnectionLifecycle, ConnectionLifecycleState, SessionLifecycle, SessionLifecycleState,
  accepts_new_operations, installed, closed_record, SessionOpenAckMetadata, new, state_after,
  SessionCloseStatus, closing_record, acked_record,
}
use nnrp_rs.Lifecycle.Steps.{
  Event, open_ack, begin_close, close_ack, close, step, OpenAckOutcome, run,
  apply_session_open_ack-cases, begin_session_close-Updates, after, apply_session_close_ack-Updates,
  close_connection-ok,
}

-- A session is stored under its own non-zero identifier; the state it was opened in is on record, and
-- it is in that state whenever it takes new operations; a closed connection has closed sessions only.
pub record IsTracked (c : ConnectionLifecycle) (k : ℕ) (s : SessionLifecycle) : Type 0 where
  pub keyed : s.session_id ≡ k
  pub non_zero : k ≢ 0
  pub home : SessionLifecycleState
  pub known : get k c.established_session_states ≡ some home
  pub fresh : accepts_new_operations home ≡ true
  pub steady : accepts_new_operations s.state ≡ true → s.state ≡ home
  pub silent : c.state ≡ ConnectionLifecycleState.closed → s.state ≡ SessionLifecycleState.closed

abbrev pub Inv : ConnectionLifecycle → Type 0
Inv c = (k : ℕ) (s : SessionLifecycle) → get k c.sessions ≡ some s → IsTracked c k s

set-Inv :
    (c : ConnectionLifecycle) (id : ℕ) (s s' : SessionLifecycle)
    → c.state ≡ ConnectionLifecycleState.open_
    → get id c.sessions ≡ some s
    → s'.session_id ≡ s.session_id
    → ((home : SessionLifecycleState)
        → get id c.established_session_states ≡ some home
        → accepts_new_operations s'.state ≡ true
        → s'.state ≡ home)
    → Inv c
    → Inv (record c { sessions = set id s' c.sessions })
set-Inv c id s s' o found same steady inv k t e = elim (Bool-cases (id == k)) [
  | inl hit ↦
      let old : IsTracked c id s = inv id s found in
      let st = steady old.home old.known in ground (arith, get-set k id s' s c.sessions)
  | inr miss ↦
      let old : get k c.sessions ≡ some t → IsTracked c k t = inv k t in
      ground (arith, get-set k id s' s c.sessions)
]

insert-Inv :
    (c : ConnectionLifecycle) (ack : SessionOpenAckMetadata) (home : SessionLifecycleState)
    → c.state ≡ ConnectionLifecycleState.open_
    → ack.session_id ≢ 0
    → accepts_new_operations home ≡ true
    → Inv c
    → Inv (record c {
      sessions = insert ack.session_id (installed ack home) c.sessions;
      established_session_states = insert ack.session_id home c.established_session_states;
    })
unfolding installed
insert-Inv c ack home o nz a inv k t e =
    let sessions = get-insert k ack.session_id (installed ack home) c.sessions in
    let states = get-insert k ack.session_id home c.established_session_states in
    elim (Bool-cases (ack.session_id == k)) [
      | inl hit ↦ record {
        keyed = ground arith;
        non_zero = ground arith;
        home = home;
        known = ground arith;
        fresh = a;
        steady = ground arith;
        silent = ground arith;
      }
      | inr miss ↦
          let found : get k c.sessions ≡ some t = ground arith in
          let old : IsTracked c k t = inv k t found in
          record {
            keyed = old.keyed;
            non_zero = old.non_zero;
            home = old.home;
            known = ground arith;
            fresh = old.fresh;
            steady = old.steady;
            silent = old.silent;
          }
    ]

closed-Inv :
    (c : ConnectionLifecycle)
    → Inv c
    → Inv (record c {
      state = ConnectionLifecycleState.closed;
      sessions = map_values closed_record c.sessions;
    })
unfolding closed_record accepts_new_operations
closed-Inv c inv k t e = elim (Option-cases (get k c.sessions)) [
  | inl missing ↦ ground (arith, get-map_values closed_record k c.sessions)
  | inr (s, found) ↦
      let old : IsTracked c k s = inv k s found in
      let is_closed : t ≡ closed_record s =
        ground (arith, get-map_values closed_record k c.sessions) in
      record {
        keyed = ground arith;
        non_zero = old.non_zero;
        home = old.home;
        known = old.known;
        fresh = old.fresh;
        steady = ground arith;
        silent = ground arith;
      }
]

pub new-Inv : Inv new
unfolding new get
new-Inv k s e = cc

open_ack-Inv :
    (c c' : ConnectionLifecycle) (ack : SessionOpenAckMetadata)
    → OpenAckOutcome c c' ack
    → Inv c
    → Inv c'
open_ack-Inv c c' ack (inl (same, _)) inv = subst Inv (sym same) inv
open_ack-Inv c c' ack (inr (home, i)) inv =
    subst Inv (sym i.result) (insert-Inv c ack home i.was_open i.non_zero i.fresh_state inv)

state_after-home :
    (c : ConnectionLifecycle) (id : ℕ) (status : SessionCloseStatus)
    (t home : SessionLifecycleState)
    → state_after c id status ≡ ok t
    → get id c.established_session_states ≡ some home
    → accepts_new_operations t ≡ true
    → t ≡ home
unfolding state_after accepts_new_operations
state_after-home c id SessionCloseStatus.acknowledged t home e k a = ground arith
state_after-home c id _ t home e k a = ground arith

-- Every call that succeeds keeps the invariant.
pub step-Inv : (c c' : ConnectionLifecycle) (e : Event) → step c e ≡ ok c' → Inv c → Inv c'
unfolding step
step-Inv c c' (open_ack ack) e inv =
    open_ack-Inv c c' ack (apply_session_open_ack-cases c c' ack e) inv
step-Inv c c' (begin_close header m) e inv =
    let (s, u, live) = begin_session_close-Updates c c' header m e in
    subst Inv (sym u.result) (
      unfold closing_record accepts_new_operations in
      set-Inv c header.session_id s (closing_record s m) u.was_open u.found refl
        (λ home known a. cc) inv)
step-Inv c c' (close_ack header ack) e inv =
    let (s, t, u, live, next) = apply_session_close_ack-Updates c c' header ack e in
    subst Inv (sym u.result) (
      unfold acked_record in
      set-Inv c header.session_id s (acked_record s ack t) u.was_open u.found refl
        (λ home. state_after-home c header.session_id ack.close_status t home next) inv)
step-Inv c c' close e inv = subst Inv (sym (close_connection-ok c c' e)) (closed-Inv c inv)

run-Inv : (c : ConnectionLifecycle) (es : List Event) → Inv c → Inv (run c es)
unfolding run
run-Inv c [] inv = inv
run-Inv c (e ∷ es) inv = run-Inv (after c (step c e)) es (after-Inv (step c e) refl)
  where
    after-Inv : (r : Result ConnectionLifecycle) → step c e ≡ r → Inv (after c r)
    after-Inv (ok c') eq = step-Inv c c' e eq inv
    after-Inv (err x) eq = inv

-- After any calls at all on a new connection, failed ones included, every session is stored under
-- its own non-zero identifier with the state it was opened in on record, a session that takes new
-- operations is in that state, and if the connection is closed so are all sessions.
pub run-new-Inv : (es : List Event) → Inv (run new es)
run-new-Inv es = run-Inv new es new-Inv
