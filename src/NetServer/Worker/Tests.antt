-- ===== src/NetServer/Worker/Tests.antt =====
-- A round of a worker on a server with one session.
use login_server_chat.Prelude.{ℕ, zero, suc, [], ◌∷◌, some, ◌≡◌, refl, arith, false}
use login_server_chat.NetPacket.{NetPacket}
use login_server_chat.NetServer.Session.{
  Session, Server, disconnect, emit, release_posted, leave_session, completed,
}
use login_server_chat.NetServer.Worker.{
  Contents, no_overlapped, en_iocp_job_release, next_work, worker_round,
}
use login_server_chat.NetServer.Worker.Release.{HasReleased, worker_round-leave_session}

-- A session with a receive in flight into five bytes.
abbrev open_ : Session
open_ = record {
  session_id = 65536;
  socket = 300;
  rel_socket = 300;
  io_count = 1;
  release_flag = 0;
  send_flag = 0;
  send_cnt = 0;
  send_q = [];
  send_packets = [];
  recv_q = record {
    buffer = 1 ∷ 2 ∷ 3 ∷ 4 ∷ 5 ∷ [];
    front_next = 1;
    rear_next = 1;
    total_size = 5;
  };
}

abbrev slots : ℕ → Session
slots zero = open_
slots (suc i) = record open_ { release_flag = 1; io_count = 0 }

abbrev pool_packet : NetPacket
pool_packet = record {
  buffer = [];
  write_pos = 5;
  read_pos = 5;
  ref_count = 1;
  is_encode = false;
  buffer_size = 0;
}

abbrev server : Server
server = record {
  sessions = slots;
  packets = λ n. pool_packet;
  free_sessions = [];
  max_user = 1;
  now_session = 1;
  session_cnt = 1;
  accept_cnt = 1;
  send_cnt = 0;
  recv_cnt = 0;
  events = [];
}

-- Contents that disconnect a session at its first message.
abbrev contents : Contents
contents = record {
  alloc = λ n. pool_packet;
  send_answer = completed;
  recv_answer = completed;
  on_recv = λ s session_id packet. (disconnect s session_id).1;
}

worker_round-leave_session_example :
    (s' : Server) × (worker_round contents
        (leave_session server 0)
        (some 0)
        en_iocp_job_release
        no_overlapped
      ≡ next_work s')
    × HasReleased (emit server (release_posted 0)) 0 s'
worker_round-leave_session_example =
    worker_round-leave_session contents server 0 refl refl (λ e. omega arith)
