-- ===== src/NetServer/Session/Disconnect.antt =====
-- What `Disconnect` makes of the socket of a session.
use login_server_chat.Prelude.{ℕ, ◌-◌, ◌/◌, ◌%◌, ◌^◌, ◌<◌, ◌≡◌, ◌≢◌, arith, true}
use login_server_chat.NetServer.Session.{
  Server, update, set_session, emit, slot_of, leave_session, enter_session, disconnect,
  disconnect_entered, exchange_low, request_release, invalid_socket, invalid_long,
}

leave_session-socket :
    (s : Server) (i : ℕ) → ((leave_session s i).sessions i).socket ≡ (s.sessions i).socket
unfolding leave_session set_session request_release emit update
leave_session-socket s i = ground arith

enter_session-socket :
    (s : Server) (i session_id : ℕ)
    → ((enter_session s i session_id).1.sessions i).socket ≡ (s.sessions i).socket
unfolding enter_session set_session leave_session request_release emit update
enter_session-socket s i session_id = ground arith

disconnect_entered-socket :
    (s : Server) (i : ℕ)
    → ((disconnect_entered s i).1.sessions i).socket ≡ exchange_low (s.sessions i).socket
unfolding disconnect_entered set_session leave_session request_release emit update
disconnect_entered-socket s i = ground arith

-- `EnterSession` lets a call in for a session with this id whose flag is not set.
enter_session-true :
    (s : Server) (session_id : ℕ)
    → (s.sessions (slot_of session_id)).release_flag ≢ 1
    → (s.sessions (slot_of session_id)).session_id ≡ session_id
    → (enter_session s (slot_of session_id) session_id).0 ≡ true
unfolding enter_session
enter_session-true s session_id open_ same = ground (arith, open_, same)

-- `Disconnect` of a session that is there sets the lower 32 bits of its socket and leaves the upper ones;
-- unless these were all set before, the socket is then not `INVALID_SOCKET`.
pub disconnect-socket :
    (s : Server) (session_id : ℕ)
    → (s.sessions (slot_of session_id)).release_flag ≢ 1
    → (s.sessions (slot_of session_id)).session_id ≡ session_id
    → (s.sessions (slot_of session_id)).socket < 2 ^ 64 - 2 ^ 32
    → let socket = (s.sessions (slot_of session_id)).socket in
      let socket' = ((disconnect s session_id).1.sessions (slot_of session_id)).socket in
      (socket' % 2 ^ 32 ≡ invalid_long)
      × (socket' / 2 ^ 32 ≡ socket / 2 ^ 32)
      × (socket' ≢ invalid_socket)
unfolding disconnect exchange_low
disconnect-socket s session_id open_ same small =
    rw
      (
        enter_session-true s session_id open_ same,
        disconnect_entered-socket (enter_session s (slot_of session_id) session_id).1
            (slot_of session_id),
        enter_session-socket s (slot_of session_id) session_id,
      )
      (omega arith, omega arith, λ e. omega arith)
