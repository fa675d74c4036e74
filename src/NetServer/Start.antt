-- ===== src/NetServer/Start.antt =====
-- `CNetServer::Start` (LoginServer_Chat/CNetServer.cpp): the array of sessions and the stack of free
-- slots.
pub mod Fresh
mod Tests
use login_server_chat.Prelude.{
  ℕ, zero, suc, ◌+◌, ◌==◌, ltb, if◌then◌else◌, Bool, true, false, ◌||◌, List, ◌∷◌,
}
use login_server_chat.NetServer.Session.{Session, Server, update}

-- `InitSettings` sets the counters, and not the stack of free slots.
unfoldable pub init_settings : Server → Server
init_settings s = record s {
  max_user = 0;
  now_session = 0;
  session_cnt = 0;
  accept_cnt = 0;
  send_cnt = 0;
  recv_cnt = 0;
}

-- The loop over the sessions, with the rounds that are left.
unfoldable pub make_sessions : ℕ → ℕ → Server → Server
make_sessions zero idx s = s
make_sessions (suc left) idx s = make_sessions left (idx + 1) (record s {
  sessions = update s.sessions idx (record (s.sessions idx) { io_count = 0 });
  free_sessions = idx ∷ s.free_sessions;
})

-- `memory` is what `new[]` leaves in the array. `ready` says whether the socket and the completion port
-- are there, `threads` whether all threads are. The numbers are not negative.
unfoldable pub start : (ℕ → Session) → ℕ → ℕ → ℕ → Bool → Bool → Server → Bool × Server
start memory worker_thread_cnt running_thread_cnt max_user ready threads s =
    if worker_thread_cnt == 0 || running_thread_cnt == 0 || max_user == 0 || ltb 65535 max_user
    then (false, s)
    else (let t : Server = record (init_settings s) { max_user = max_user } in
        if ready
        then (threads, make_sessions max_user 0 (record t { sessions = memory }))
        else (false, t))
