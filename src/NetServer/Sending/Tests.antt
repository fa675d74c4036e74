-- ===== src/NetServer/Sending/Tests.antt =====
-- Sends of a session with packets in flight and packets in its queue.
use login_server_chat.Prelude.{[], ◌∷◌, ◌++◌, ◌≡◌, refl, true, arith}
use login_server_chat.NetPacket.{NetPacket}
use login_server_chat.NetServer.Session.{
  Session, Server, update, increment, decrement, set_session, emit, free_packets, packet_freed,
  packets_sent, completed, failed,
}
use login_server_chat.NetServer.Sending.{
  take_send_flag, fill_send_packets, sent, post_packets, send_post, send_completed, finish_work,
}
use login_server_chat.NetServer.Sending.Outstanding.{in_flight, send_completed-handed}

-- The packets 4 and 5 are in flight, 6 and 7 in the queue.
abbrev sending : Session
sending = record {
  session_id = 65536;
  socket = 300;
  rel_socket = 300;
  io_count = 2;
  release_flag = 0;
  send_flag = 1;
  send_cnt = 2;
  send_q = 6 ∷ 7 ∷ [];
  send_packets = 4 ∷ 5 ∷ 9 ∷ [];
  recv_q = record { buffer = []; front_next = 1; rear_next = 1; total_size = 5 };
}

abbrev packet : NetPacket
packet = record {
  buffer = [];
  write_pos = 5;
  read_pos = 5;
  ref_count = 1;
  is_encode = true;
  buffer_size = 0;
}

abbrev server : Server
server = record {
  sessions = λ i. sending;
  packets = λ n. packet;
  free_sessions = [];
  max_user = 1;
  now_session = 1;
  session_cnt = 1;
  accept_cnt = 1;
  send_cnt = 0;
  recv_cnt = 1;
  events = [];
}

send_completed-server :
    (send_completed server 0 completed).events
    ≡ packets_sent (6 ∷ 7 ∷ []) ∷ packet_freed 5 ∷ packet_freed 4 ∷ []
unfolding send_completed send_post post_packets take_send_flag fill_send_packets sent update emit
    set_session free_packets increment
send_completed-server = refl

finish_work-failed : ((finish_work (send_completed server 0 failed) 0).sessions 0).io_count ≡ 1
unfolding finish_work send_completed send_post post_packets take_send_flag fill_send_packets sent
    update emit set_session free_packets increment decrement
finish_work-failed = refl

send_completed-handed_example :
    let s' = send_completed server 0 failed in
    (s'.events ≡ packets_sent (6 ∷ 7 ∷ []) ∷ packet_freed 5 ∷ packet_freed 4 ∷ [])
    × (in_flight (s'.sessions 0) ≡ 6 ∷ 7 ∷ [])
    × (in_flight (s'.sessions 0) ++ (s'.sessions 0).send_q ≡ 6 ∷ 7 ∷ [])
    × ((s'.sessions 0).io_count ≡ 2)
unfolding free_packets increment decrement
send_completed-handed_example = send_completed-handed server 0 failed (λ e. omega arith)
