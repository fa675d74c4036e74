-- ===== src/NetServer/Worker.antt =====
-- A round of a worker thread: the loop body of `IOCPWorkerThread`, and `RecvPost`
-- (LoginServer_Chat/CNetServer.cpp).
pub mod Release
mod Tests
use login_server_chat.Prelude.{
  ℕ, ◌==◌, if◌then◌else◌, Bool, true, false, ◌&&◌, not, List, [], ◌∷◌, Option, none, some,
}
use login_server_chat.RingBuffer.{Ring, move_rear}
use login_server_chat.NetPacket.{NetPacket}
use login_server_chat.NetServer.Session.{
  Session, Server, increment, decrement, set_session, emit, io_cancelled, invalid_socket,
  disconnect, release_session, Posted, completed, pending, failed,
}
use login_server_chat.NetServer.Receive.{receive_buffers}
use login_server_chat.NetServer.Framing.{
  Stop, awaits_bytes, disconnects, overruns, fuel_out, LoopEnd, receive_messages,
}
use login_server_chat.NetServer.Sending.{send_post, send_completed, finish_work}

abbrev pub en_iocp_job_sendpost : ℕ
en_iocp_job_sendpost = 1

abbrev pub en_iocp_job_release : ℕ
en_iocp_job_release = 2

-- What `WSARecv` answers in `RecvPost`.
unfoldable pub receive_posted : Server → ℕ → Posted → Server
receive_posted s i completed = s
receive_posted s i pending =
    if (s.sessions i).socket == invalid_socket
    then emit s (io_cancelled (s.sessions i).rel_socket)
    else s
receive_posted s i failed =
    let session = s.sessions i in
    set_session s i (record session { io_count = decrement session.io_count })

-- The buffers that go to `WSARecv`, and the server.
unfoldable pub recv_post : Server → ℕ → Posted → List (ℕ × ℕ) × Server
recv_post s i posted =
    let session = s.sessions i in
    (
      receive_buffers session.recv_q,
      receive_posted (set_session s i (record session { io_count = increment session.io_count })) i
          posted,
    )

-- Which of the two structures of the session a completion carries, if any.
pub data Overlapped : Type 0 where
  no_overlapped : Overlapped
  send_overlapped : Overlapped
  recv_overlapped : Overlapped

-- How a round ends: with the next one, with the thread, or with the process (`CrashDump::Crash`, a
-- null pointer, and a message that is written past the end of its packet).
pub data Worked : Type 0 where
  next_work : Server → Worked
  thread_over : Worked
  crashed : Worked

-- What the round gets: the packets that `CNetPacket::Alloc` returns, the answers to a send and to a
-- receive, and the contents, whose `OnRecv` works on the server.
pub record Contents : Type 0 where
  pub alloc : ℕ → NetPacket
  pub send_answer : Posted
  pub recv_answer : Posted
  pub on_recv : Server → ℕ → NetPacket → Server

-- `OnRecv` for the packets of the loop, in order.
unfoldable pub deliver : Contents → Server → ℕ → List NetPacket → Server
deliver t s session_id [] = s
deliver t s session_id (packet ∷ packets) =
    deliver t (t.on_recv s session_id packet) session_id packets

-- What comes after the loop over the messages.
unfoldable pub after_loop : Contents → Server → ℕ → Stop → Worked
after_loop t s i awaits_bytes = next_work (recv_post s i t.recv_answer).1
after_loop t s i disconnects =
    next_work (recv_post (disconnect s (s.sessions i).session_id).1 i t.recv_answer).1
after_loop t s i overruns = crashed
after_loop t s i fuel_out = crashed

-- A completed receive. `OnRecv` is not given the ring or `_recvCnt`, which the loop alone works on.
unfoldable pub recv_completed : Contents → Server → ℕ → ℕ → Worked
recv_completed t s i transferred =
    let session = s.sessions i in
    let (ret_size, recv_q) = move_rear session.recv_q transferred in
    if ret_size == transferred
    then (let loop = receive_messages t.alloc recv_q s.recv_cnt in
        let s' =
          set_session (record s { recv_cnt = loop.recv_cnt }) i
            (record session { recv_q = loop.recv_q }) in
        after_loop t (deliver t s' session.session_id loop.delivered) i loop.stop)
    else crashed

unfoldable pub finish : ℕ → Worked → Worked
finish i (next_work s) = next_work (finish_work s i)
finish i thread_over = thread_over
finish i crashed = crashed

unfoldable pub dispatch : Contents → Server → ℕ → ℕ → Overlapped → Worked
dispatch t s i transferred no_overlapped =
    if transferred == en_iocp_job_sendpost
    then finish i (next_work (send_post s i t.send_answer))
    else if transferred == en_iocp_job_release
    then next_work (release_session s i)
    else finish i (next_work s)
dispatch t s i transferred send_overlapped = finish i (next_work (send_completed s i t.send_answer))
dispatch t s i transferred recv_overlapped = finish i (recv_completed t s i transferred)

-- A completion without a session ends the thread when nothing else comes with it, as `Stop` posts it.
unfoldable pub no_session : ℕ → Overlapped → Worked
no_session transferred no_overlapped = if transferred == 0 then thread_over else crashed
no_session transferred send_overlapped = crashed
no_session transferred recv_overlapped = crashed

unfoldable pub worker_round : Contents → Server → Option ℕ → ℕ → Overlapped → Worked
worker_round t s none transferred overlapped = no_session transferred overlapped
worker_round t s (some i) transferred overlapped =
    if not (transferred == 0) && not ((s.sessions i).socket == invalid_socket)
    then dispatch t s i transferred overlapped
    else finish i (next_work s)
