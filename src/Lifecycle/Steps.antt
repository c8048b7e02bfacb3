-- ===== src/Lifecycle/Steps.antt =====
-- What each operation of ConnectionLifecycle does where it succeeds, and histories of operations.
use nnrp_rs.Base.{ℕ, ◌≡◌, ◌≢◌, refl, ◌⊎◌, inl, inr, true, List, [], ◌∷◌, none, some, arith}
use nnrp_rs.Base.Dict.{get, set, insert, contains_key_iff, map_values}
use nnrp_rs.Error.{>>=-eq-ok, Result, ok, err}
use nnrp_rs.Enums.SessionStatus.{SessionStatus}
use nnrp_rs.Header.{CommonHeader}
use nnrp_rs.Session.OpenAck.{SessionOpenAckMetadata}
use nnrp_rs.Session.Close.{SessionCloseMetadata}
use nnrp_rs.Session.CloseAck.{SessionCloseAckMetadata}
use nnrp_rs.Lifecycle.{
  ConnectionLifecycle, ConnectionLifecycleState, SessionLifecycle, SessionLifecycleState, installed,
  accepts_new_operations, accepts_session_scoped_messages, close_connection, apply_session_open_ack,
  begin_session_close, apply_session_close_ack, state_after, closing_record, acked_record, install,
  apply_status, require_connection_open, closed_record,
}

-- The calls that change a connection.
pub data Event : Type 0 where
  open_ack : SessionOpenAckMetadata → Event
  begin_close : CommonHeader → SessionCloseMetadata → Event
  close_ack : CommonHeader → SessionCloseAckMetadata → Event
  close : Event

unfoldable pub step : ConnectionLifecycle → Event → Result ConnectionLifecycle
step c (open_ack ack) = apply_session_open_ack c ack
step c (begin_close header m) = begin_session_close c header m
step c (close_ack header ack) = apply_session_close_ack c header ack
step c close = close_connection c

-- A session record is overwritten, the connection being open.
pub record Updates (c c' : ConnectionLifecycle) (id : ℕ) (s s' : SessionLifecycle) : Type 0 where
  pub was_open : c.state ≡ ConnectionLifecycleState.open_
  pub found : get id c.sessions ≡ some s
  pub result : c' ≡ record c { sessions = set id s' c.sessions }

pub begin_session_close-Updates :
    (c c' : ConnectionLifecycle) (header : CommonHeader) (m : SessionCloseMetadata)
    → begin_session_close c header m ≡ ok c'
    → (s : SessionLifecycle) × Updates c c' header.session_id s (closing_record s m)
      × (accepts_new_operations s.state ≡ true)
unfolding begin_session_close
begin_session_close-Updates c c' header m e = ground arith

pub apply_session_close_ack-Updates :
    (c c' : ConnectionLifecycle) (header : CommonHeader) (ack : SessionCloseAckMetadata)
    → apply_session_close_ack c header ack ≡ ok c'
    → (s : SessionLifecycle) × (t : SessionLifecycleState) × Updates c c' header.session_id s
        (acked_record s ack t)
      × (accepts_session_scoped_messages s.state ≡ true)
      × (state_after c header.session_id ack.close_status ≡ ok t)
unfolding apply_session_close_ack
apply_session_close_ack-Updates c c' header ack e = ground arith

-- A session is added under a new identifier.
pub record Installs (c c' : ConnectionLifecycle) (ack : SessionOpenAckMetadata)
    (t : SessionLifecycleState) : Type 0 where
  pub was_open : c.state ≡ ConnectionLifecycleState.open_
  pub non_zero : ack.session_id ≢ 0
  pub fresh : get ack.session_id c.sessions ≡ none
  pub fresh_state : accepts_new_operations t ≡ true
  pub result : c' ≡ record c {
    sessions = insert ack.session_id (installed ack t) c.sessions;
    established_session_states = insert ack.session_id t c.established_session_states;
  }

install-Installs :
    (c c' : ConnectionLifecycle) (ack : SessionOpenAckMetadata) (t : SessionLifecycleState)
    → c.state ≡ ConnectionLifecycleState.open_
    → accepts_new_operations t ≡ true
    → install c ack t ≡ ok c'
    → Installs c c' ack t
unfolding install
install-Installs c c' ack t o a e = ground (arith, contains_key_iff ack.session_id c.sessions)

abbrev pub OpenAckOutcome :
    ConnectionLifecycle → ConnectionLifecycle → SessionOpenAckMetadata → Type 0
OpenAckOutcome c c' ack =
    ((c' ≡ c) × (ack.session_id ≡ 0)) ⊎ ((t : SessionLifecycleState) × Installs c c' ack t)

apply_status-cases :
    (status : SessionStatus) (c c' : ConnectionLifecycle) (ack : SessionOpenAckMetadata)
    → c.state ≡ ConnectionLifecycleState.open_
    → apply_status status c ack ≡ ok c'
    → OpenAckOutcome c c' ack
unfolding apply_status accepts_new_operations
apply_status-cases SessionStatus.opened c c' ack o e =
    inr (SessionLifecycleState.open_, install-Installs c c' ack _ o refl e)
apply_status-cases SessionStatus.resumed c c' ack o e =
    inr (SessionLifecycleState.resumed, install-Installs c c' ack _ o refl e)
apply_status-cases SessionStatus.rejected c c' ack o e = inl (ground arith)
apply_status-cases SessionStatus.retry_later c c' ack o e = inl (ground arith)

require_connection_open-ok :
    (c : ConnectionLifecycle) {u : Unit {0}}
    → require_connection_open c ≡ ok u
    → c.state ≡ ConnectionLifecycleState.open_
unfolding require_connection_open
require_connection_open-ok c e = ground arith

-- The answer to SESSION_OPEN adds a session, or refuses and changes nothing.
pub apply_session_open_ack-cases :
    (c c' : ConnectionLifecycle) (ack : SessionOpenAckMetadata)
    → apply_session_open_ack c ack ≡ ok c'
    → OpenAckOutcome c c' ack
unfolding apply_session_open_ack
apply_session_open_ack-cases c c' ack e =
    let (u, opened, rest) = >>=-eq-ok (require_connection_open c) _ e in
    apply_status-cases ack.session_status c c' ack (require_connection_open-ok c opened) rest

pub close_connection-ok :
    (c c' : ConnectionLifecycle)
    → close_connection c ≡ ok c'
    → c' ≡ record c {
      state = ConnectionLifecycleState.closed;
      sessions = map_values closed_record c.sessions;
    }
unfolding close_connection
close_connection-ok c c' e = ground arith

-- A call that fails leaves the connection as it was.
abbrev pub after : ConnectionLifecycle → Result ConnectionLifecycle → ConnectionLifecycle
after c (ok c') = c'
after c (err e) = c

unfoldable pub run : ConnectionLifecycle → List Event → ConnectionLifecycle
run c [] = c
run c (e ∷ es) = run (after c (step c e)) es
