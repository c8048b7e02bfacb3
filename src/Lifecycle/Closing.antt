-- ===== src/Lifecycle/Closing.antt =====
-- Closing handshakes: a refused SESSION_CLOSE, and the end of a connection.
use nnrp_rs.Enums.SessionCloseStatus.{SessionCloseStatus}
use nnrp_rs.Base.{ℕ, ◌≡◌, refl, true, List, [], ◌∷◌, some, arith, ap}
use nnrp_rs.Base.Dict.{get, get-set, get-map_values}
use nnrp_rs.Error.{NnrpError, ok, err, connection_already_closed, connection_not_open}
use nnrp_rs.Header.{CommonHeader}
use nnrp_rs.Session.Close.{SessionCloseMetadata}
use nnrp_rs.Session.CloseAck.{SessionCloseAckMetadata}
use nnrp_rs.Lifecycle.{
  ConnectionLifecycle, ConnectionLifecycleState, SessionLifecycle, SessionLifecycleState, session,
  begin_session_close, apply_session_close_ack, accepts_new_operations, apply_session_open_ack,
  close_connection, require_connection_open, state_after, acked_record, closed_record,
}
use nnrp_rs.Lifecycle.Steps.{
  Event, step, run, open_ack, close, begin_session_close-Updates, apply_session_close_ack-Updates,
  close_connection-ok,
}
use nnrp_rs.Lifecycle.Invariant.{Inv, IsTracked}

state_after-rejected :
    (c : ConnectionLifecycle) (id : ℕ) (status : SessionCloseStatus) (home : SessionLifecycleState)
    → status ≡ SessionCloseStatus.rejected
    → state_after c id status ≡ ok home
    → get id c.established_session_states ≡ some home
unfolding state_after
state_after-rejected c id status home rej e = ground arith

-- On a connection that satisfies the invariant, a SESSION_CLOSE that the peer rejects is undone:
-- the session is back in the state that it was in before, whether it was opened or resumed, and
-- takes new operations again.
pub close_then_rejected :
    (c c' c'' : ConnectionLifecycle) (h h' : CommonHeader) (m : SessionCloseMetadata)
    (ack : SessionCloseAckMetadata)
    → Inv c
    → begin_session_close c h m ≡ ok c'
    → h'.session_id ≡ h.session_id
    → ack.close_status ≡ SessionCloseStatus.rejected
    → apply_session_close_ack c' h' ack ≡ ok c''
    → (s s'' : SessionLifecycle) × (session c h.session_id ≡ some s)
      × (session c'' h.session_id ≡ some s'')
      × (s''.state ≡ s.state)
      × (accepts_new_operations s''.state ≡ true)
unfolding acked_record
close_then_rejected c c' c'' h h' m ack inv e same rej e' =
    let (s, u, live) = begin_session_close-Updates c c' h m e in
    let (s', home, u', live', next) = apply_session_close_ack-Updates c' c'' h' ack e' in
    let t : IsTracked c h.session_id s = inv h.session_id s u.found in
    let same_states : c'.established_session_states ≡ c.established_session_states =
      ap (λ c. c.established_session_states) u.result in
    let back : get h'.session_id c'.established_session_states ≡ some home =
      state_after-rejected c' h'.session_id ack.close_status home rej next in
    let is_home : home ≡ t.home = ground arith in
    let steady = t.steady live in
    let stored = get-set h.session_id h.session_id (acked_record s' ack home) s' c'.sessions in
    (s, acked_record s' ack home, u.found, ground arith, ground arith, ground arith)

abbrev pub refusal : Event → NnrpError
refusal close = connection_already_closed
refusal _ = connection_not_open

closed_refuses :
    (c : ConnectionLifecycle) (e : Event)
    → c.state ≡ ConnectionLifecycleState.closed
    → step c e ≡ err (refusal e)
unfolding step apply_session_open_ack begin_session_close apply_session_close_ack close_connection
    require_connection_open
closed_refuses c (open_ack ack) h = ground arith
closed_refuses c _ h = ground arith

run_closed :
    (c : ConnectionLifecycle) (es : List Event)
    → c.state ≡ ConnectionLifecycleState.closed
    → run c es ≡ c
unfolding run
run_closed c [] h = refl
run_closed c (e ∷ es) h = rw (closed_refuses c e h) (run_closed c es h)

-- After `close_connection` every session is closed, and no call changes the connection any more.
pub close_connection_final :
    (c c' : ConnectionLifecycle) (es : List Event) (k : ℕ) (s : SessionLifecycle)
    → close_connection c ≡ ok c'
    → session c' k ≡ some s
    → (run c' es ≡ c') × (s.state ≡ SessionLifecycleState.closed)
unfolding closed_record
close_connection_final c c' es k s e found =
    let closed = close_connection-ok c c' e in
    (
      run_closed c' es (ap (λ c. c.state) closed),
      ground (arith, get-map_values closed_record k c.sessions),
    )
