-- ===== src/Lifecycle/Sessions.antt =====
-- What a call does to the sessions that it is not about, and what no call ever changes.
use nnrp_rs.Base.Dict.{get, get-set, get-insert, get-map_values}
use nnrp_rs.Base.{
  ℕ, ◌≡◌, ◌≢◌, refl, inl, inr, true, List, [], ◌∷◌, some, arith, Bool-cases, ap, ◌==◌,
}
use nnrp_rs.Error.{Result, ok, err}
use nnrp_rs.Lifecycle.{
  ConnectionLifecycle, SessionLifecycle, SessionLifecycleState, SessionOpenAckMetadata, session,
  installed, accepts_session_scoped_messages, accepts_new_operations, closing_record, acked_record,
  closed_record,
}
use nnrp_rs.Lifecycle.Steps.{
  Event, open_ack, begin_close, close_ack, close, Updates, step, OpenAckOutcome,
  apply_session_open_ack-cases, begin_session_close-Updates, apply_session_close_ack-Updates, run,
  after, close_connection-ok,
}

-- The call is about the session: it names it, or it closes the whole connection.
abbrev pub Concerns : Event → ℕ → Type 0
Concerns (open_ack ack) k = ack.session_id ≡ k
Concerns (begin_close header m) k = header.session_id ≡ k
Concerns (close_ack header ack) k = header.session_id ≡ k
Concerns close k = Unit

Updates-isolates :
    (c c' : ConnectionLifecycle) (id k : ℕ) (s s' : SessionLifecycle)
    → Updates c c' id s s'
    → id ≢ k
    → session c' k ≡ session c k
Updates-isolates c c' id k s s' u other = ground (arith, get-set k id s' s c.sessions)

open_ack_isolates :
    (c c' : ConnectionLifecycle) (ack : SessionOpenAckMetadata) (k : ℕ)
    → OpenAckOutcome c c' ack
    → ack.session_id ≢ k
    → session c' k ≡ session c k
open_ack_isolates c c' ack k (inl (same, _)) other = ap (λ c. session c k) same
open_ack_isolates c c' ack k (inr (home, i)) other =
    ground (arith, get-insert k ack.session_id (installed ack home) c.sessions)

-- A call that succeeds leaves every session as it was that it does not concern.
pub step_isolates :
    (c c' : ConnectionLifecycle) (e : Event) (k : ℕ)
    → step c e ≡ ok c'
    → ¬ Concerns e k
    → session c' k ≡ session c k
unfolding step
step_isolates c c' (open_ack ack) k e other =
    open_ack_isolates c c' ack k (apply_session_open_ack-cases c c' ack e) other
step_isolates c c' (begin_close header m) k e other =
    let (s, u, live) = begin_session_close-Updates c c' header m e in
    Updates-isolates c c' header.session_id k s _ u other
step_isolates c c' (close_ack header ack) k e other =
    let (s, t, u, live, next) = apply_session_close_ack-Updates c c' header ack e in
    Updates-isolates c c' header.session_id k s _ u other
step_isolates c c' close k e other = absurd (other tt)

-- What no call changes about a session, and what only grows.
pub record Keeps (c c' : ConnectionLifecycle) (k : ℕ) (s s' : SessionLifecycle) : Type 0 where
  pub found : session c' k ≡ some s'
  pub same_home : get k c'.established_session_states ≡ get k c.established_session_states
  pub same_profile : s'.profile_id ≡ s.profile_id
  pub same_priority : s'.priority_class ≡ s.priority_class
  pub same_schema : s'.schema_id ≡ s.schema_id
  pub same_schema_version : s'.schema_version ≡ s.schema_version
  pub same_limit : s'.max_in_flight_operations ≡ s.max_in_flight_operations
  pub same_route_scope : s'.route_scope_id ≡ s.route_scope_id
  pub stays_closed :
      s.state ≡ SessionLifecycleState.closed → s'.state ≡ SessionLifecycleState.closed

Updates-Keeps :
    (c c' : ConnectionLifecycle) (id k : ℕ) (s s' t : SessionLifecycle)
    → Updates c c' id s s'
    → s.state ≢ SessionLifecycleState.closed
    → s'.profile_id ≡ s.profile_id
    → s'.priority_class ≡ s.priority_class
    → s'.schema_id ≡ s.schema_id
    → s'.schema_version ≡ s.schema_version
    → s'.max_in_flight_operations ≡ s.max_in_flight_operations
    → s'.route_scope_id ≡ s.route_scope_id
    → session c k ≡ some t
    → (t' : SessionLifecycle) × Keeps c c' k t t'
Updates-Keeps c c' id k s s' t u live p1 p2 p3 p4 p5 p6 e = elim (Bool-cases (id == k)) [
  | inl hit ↦ let g = get-set k id s' s c.sessions in (s', ground arith)
  | inr miss ↦ let g = get-set k id s' s c.sessions in (t, ground arith)
]

open_ack-Keeps :
    (c c' : ConnectionLifecycle) (ack : SessionOpenAckMetadata) (k : ℕ) (t : SessionLifecycle)
    → OpenAckOutcome c c' ack
    → session c k ≡ some t
    → (t' : SessionLifecycle) × Keeps c c' k t t'
open_ack-Keeps c c' ack k t (inl (same, _)) e = (t, ground arith)
open_ack-Keeps c c' ack k t (inr (home, i)) e =
    let g = get-insert k ack.session_id (installed ack home) c.sessions in
    let h = get-insert k ack.session_id home c.established_session_states in
    elim (Bool-cases (ack.session_id == k)) [
      | inl hit ↦ absurd (ground arith)
      | inr miss ↦ (t, ground arith)
    ]

live-ne-closed :
    (s : SessionLifecycleState)
    → accepts_session_scoped_messages s ≡ true
    → s ≢ SessionLifecycleState.closed
unfolding accepts_session_scoped_messages
live-ne-closed s h e = ground arith

new-ne-closed :
    (s : SessionLifecycleState) → accepts_new_operations s ≡ true → s ≢ SessionLifecycleState.closed
unfolding accepts_new_operations
new-ne-closed s h e = ground arith

step-Keeps :
    (c c' : ConnectionLifecycle) (e : Event) (k : ℕ) (t : SessionLifecycle)
    → step c e ≡ ok c'
    → session c k ≡ some t
    → (t' : SessionLifecycle) × Keeps c c' k t t'
unfolding step closing_record acked_record closed_record
step-Keeps c c' (open_ack ack) k t e found =
    open_ack-Keeps c c' ack k t (apply_session_open_ack-cases c c' ack e) found
step-Keeps c c' (begin_close header m) k t e found =
    let (s, u, live) = begin_session_close-Updates c c' header m e in
    Updates-Keeps c c' header.session_id k s (closing_record s m) t u (new-ne-closed s.state live)
      refl refl refl refl refl refl found
step-Keeps c c' (close_ack header ack) k t e found =
    let (s, home, u, live, next) = apply_session_close_ack-Updates c c' header ack e in
    Updates-Keeps c c' header.session_id k s (acked_record s ack home) t u
      (live-ne-closed s.state live) refl refl refl refl refl refl found
step-Keeps c c' close k t e found =
    let closed = close_connection-ok c c' e in
    let g = get-map_values closed_record k c.sessions in (closed_record t, ground arith)

Keeps-trans :
    (c c' c'' : ConnectionLifecycle) (k : ℕ) (s s' s'' : SessionLifecycle)
    → Keeps c c' k s s'
    → Keeps c' c'' k s' s''
    → Keeps c c'' k s s''
Keeps-trans c c' c'' k s s' s'' a b = ground arith

-- Whatever calls follow, failed ones included, a session stays under its identifier with the profile,
-- the priority, the schema, the limit and the route scope it was opened with; the state it was opened
-- in stays on record; and once it is closed it stays closed.
pub run-Keeps :
    (c : ConnectionLifecycle) (es : List Event) (k : ℕ) (s : SessionLifecycle)
    → session c k ≡ some s
    → (s' : SessionLifecycle) × Keeps c (run c es) k s s'
unfolding run
run-Keeps c [] k s found = (s, ground arith)
run-Keeps c (e ∷ es) k s found =
    let (s', a) = after-Keeps (step c e) refl in
    let (s'', b) = run-Keeps (after c (step c e)) es k s' a.found in
    (s'', Keeps-trans c (after c (step c e)) _ k s s' s'' a b)
  where
    after-Keeps :
        (r : Result ConnectionLifecycle)
        → step c e ≡ r
        → (s' : SessionLifecycle) × Keeps c (after c r) k s s'
    after-Keeps (ok c') eq = step-Keeps c c' e k s eq found
    after-Keeps (err x) eq = (s, ground arith)
