-- ===== src/NetServer/Worker/Release.antt =====
-- The release of a session that `LeaveSession` posts, and the worker that gets it
-- (LoginServer_Chat/CNetServer.cpp).
use login_server_chat.Prelude.{
  ℕ, ◌==◌, true, false, [], ◌∷◌, take, some, ◌≡◌, ◌≢◌, ==_iff, refl, ap, ◌∙◌, arith,
}
use login_server_chat.NetServer.Session.{
  Session, Server, update, decrement, set_session, emit, slot_of, invalid_socket, client_left,
  socket_closed, release_posted, free_packets, request_release, leave_session, release_owned,
  release_session,
}
use login_server_chat.NetServer.Session.Counts.{update_same}
use login_server_chat.NetServer.Worker.{
  en_iocp_job_release, no_overlapped, next_work, Contents, dispatch, worker_round,
}

leave_session-last :
    (s : Server) (i : ℕ)
    → (s.sessions i).io_count ≡ 1
    → leave_session s i
      ≡ emit (set_session s i (record (s.sessions i) { io_count = 0 })) (release_posted i)
unfolding leave_session request_release decrement
leave_session-last s i last = rw last refl

-- `s'` is `s` after the release of the session in slot `i`.
pub record HasReleased (s : Server) (i : ℕ) (s' : Server) : Type 0 where
  pub flag : (s'.sessions i).release_flag ≡ 1
  pub unused : (s'.sessions i).io_count ≡ 0
  pub queue : (s'.sessions i).send_q ≡ []
  pub slots : s'.free_sessions ≡ slot_of (s.sessions i).session_id ∷ s.free_sessions
  pub now : s'.now_session ≡ decrement s.now_session
  pub told :
      s'.events
      ≡ client_left (s.sessions i).session_id
        ∷ socket_closed (s.sessions i).rel_socket
        ∷ free_packets
            (take (s.sessions i).send_cnt (s.sessions i).send_packets)
            (free_packets (s.sessions i).send_q s.events)

release_session-HasReleased :
    (s : Server) (i : ℕ)
    → (s.sessions i).io_count ≡ 0
    → (s.sessions i).release_flag ≡ 0
    → HasReleased s i (release_session s i)
unfolding release_session release_owned set_session
release_session-HasReleased s i last entered =
    let session : Session = record (s.sessions i) { release_flag = 1 } in
    let u = update_same s.sessions i session in
    let u' =
      update_same (update s.sessions i session) i
        (record (update s.sessions i session i) { send_q = [] }) in
    let unused : ((s.sessions i).io_count == 0) ≡ true = (==_iff _ _).1 last in
    let open_ : ((s.sessions i).release_flag == 0) ≡ true = (==_iff _ _).1 entered in
    rw (unused, open_)
      (record {
        flag = ap (λ x. x.release_flag) u' ∙ ap (λ x. x.release_flag) u;
        unused = ap (λ x. x.io_count) u' ∙ ap (λ x. x.io_count) u ∙ last;
        queue = ap (λ x. x.send_q) u';
        slots = ap (λ x. slot_of x.session_id ∷ s.free_sessions) u;
        now = refl;
        told = rw u refl;
      })

-- The last user of a session, whose socket is not `INVALID_SOCKET`, leaves by `LeaveSession`, and a worker
-- gets the job that it posts: the session is released. Its flag is set, its count stays 0, its queue is
-- empty, its slot is on the stack of free slots, `_nowSession` is decremented, its packets are given back, its
-- socket is closed, and `OnClientLeave` is called.
pub worker_round-leave_session :
    (t : Contents) (s : Server) (i : ℕ)
    → (s.sessions i).io_count ≡ 1
    → (s.sessions i).release_flag ≡ 0
    → (s.sessions i).socket ≢ invalid_socket
    → (s' : Server) × (worker_round t (leave_session s i) (some i) en_iocp_job_release no_overlapped
        ≡ next_work s')
      × HasReleased (emit s (release_posted i)) i s'
unfolding worker_round dispatch set_session emit
worker_round-leave_session t s i last entered valid =
    let session : Session = record (s.sessions i) { io_count = 0 } in
    let u : update s.sessions i session i ≡ session = update_same s.sessions i session in
    let left : Server = emit (set_session s i session) (release_posted i) in
    let there : ((s.sessions i).socket == invalid_socket) ≡ false = ground (arith, valid) in
    let r =
      release_session-HasReleased left i (ap (λ x. x.io_count) u)
        (ap (λ x. x.release_flag) u ∙ entered) in
    (
      release_session left i,
      rw (leave_session-last s i last, u, there) refl,
      record {
        flag = r.flag;
        unused = r.unused;
        queue = r.queue;
        slots = r.slots ∙ ap (λ x. slot_of x.session_id ∷ s.free_sessions) u;
        now = r.now;
        told = r.told ∙ rw u refl;
      },
    )
