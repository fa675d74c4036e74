-- ===== src/NetServer/Sending.antt =====
-- `SendPost`, and what the worker does when a send is completed (LoginServer_Chat/CNetServer.cpp).
pub mod Outstanding
mod Tests
use login_server_chat.Prelude.{
  ℕ, zero, suc, ◌+◌, ◌==◌, ltb, if◌then◌else◌, List, [], ◌∷◌, ◌++◌, take, drop, length, Option,
  none, some,
}
use login_server_chat.NetServer.Session.{
  Session, Server, update, increment, decrement, set_session, emit, free_packets, release_session,
  io_cancelled, packets_sent, invalid_socket, Posted, completed, pending, failed,
}

-- `MAXBUF`.
abbrev pub max_buf : ℕ
max_buf = 200

-- The loop that takes the flag: `none` when the call returns, else the session with the flag set.
-- `rounds` is the number of rounds that are left of two.
unfoldable pub take_send_flag : ℕ → Session → Option Session
take_send_flag zero session = none
take_send_flag (suc rounds) session =
    let further = take_send_flag rounds (record session { send_flag = 0 }) in
    if length session.send_q == 0
    then none
    else if session.send_flag == 1
    then none
    else if length session.send_q == 0
    then further
    else some (record session { send_flag = 1 })

-- `sendPacketArr` gets the packets from its start on, and they leave the queue.
unfoldable pub fill_send_packets : Session → ℕ → Session
fill_send_packets session use_size = record session {
  send_packets = take use_size session.send_q ++ drop use_size session.send_packets;
  send_q = drop use_size session.send_q;
  send_cnt = use_size;
  io_count = increment session.io_count;
}

-- What `WSASend` answers.
unfoldable pub sent : Server → ℕ → Posted → Server
sent s i completed = s
sent s i pending =
    if (s.sessions i).socket == invalid_socket
    then emit s (io_cancelled (s.sessions i).rel_socket)
    else s
sent s i failed =
    let session = s.sessions i in
    set_session s i (record session { io_count = decrement session.io_count })

unfoldable pub post_packets : Server → ℕ → Posted → Option Session → Server
post_packets s i posted none = s
post_packets s i posted (some session) =
    let count = length session.send_q in
    let use_size = (if ltb max_buf count then max_buf else count) in
    sent
      (emit (set_session s i (fill_send_packets session use_size))
        (packets_sent (take use_size session.send_q)))
      i posted

unfoldable pub send_post : Server → ℕ → Posted → Server
send_post s i posted = post_packets s i posted (take_send_flag 2 (s.sessions i))

-- A completed send: its packets are given back, and the next ones are posted.
unfoldable pub send_completed : Server → ℕ → Posted → Server
send_completed s i posted =
    let session = s.sessions i in
    let s' : Server = record s {
      sessions = update s.sessions i (record session { send_cnt = 0; send_flag = 0 });
      events = free_packets (take session.send_cnt session.send_packets) s.events;
    } in
    send_post s' i posted

-- The worker's last act on a session.
unfoldable pub finish_work : Server → ℕ → Server
finish_work s i =
    let session = s.sessions i in
    let count = decrement session.io_count in
    let s' = set_session s i (record session { io_count = count }) in
    if count == 0 then release_session s' i else s'
