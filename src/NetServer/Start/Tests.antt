-- ===== src/NetServer/Start/Tests.antt =====
-- A start with two slots, and one more after a stop.
use login_server_chat.Prelude.{ℕ, ◌+◌, ◌<◌, List, [], ◌∷◌, length, ◌≡◌, refl, true, false, arith}
use login_server_chat.NetServer.Session.{Session, Server}
use login_server_chat.NetServer.Session.Slots.{IsConsistent}
use login_server_chat.NetServer.Start.{init_settings, make_sessions, start}
use login_server_chat.NetServer.Start.Fresh.{start_again}

-- What `new[]` leaves, with the flag set.
abbrev memory : ℕ → Session
memory i = record {
  session_id = 205;
  socket = 205;
  rel_socket = 205;
  io_count = 205;
  release_flag = 1;
  send_flag = 205;
  send_cnt = 205;
  send_q = [];
  send_packets = [];
  recv_q = record { buffer = []; front_next = 1; rear_next = 1; total_size = 5 };
}

abbrev stopped : Server
stopped = record {
  sessions = memory;
  packets = λ n. record {
    buffer = [];
    write_pos = 5;
    read_pos = 5;
    ref_count = 1;
    is_encode = false;
    buffer_size = 0;
  };
  free_sessions = [];
  max_user = 7;
  now_session = 7;
  session_cnt = 7;
  accept_cnt = 7;
  send_cnt = 7;
  recv_cnt = 7;
  events = [];
}

abbrev old_slots : List ℕ
old_slots = 1 ∷ 0 ∷ []

-- The slots of the start before are still on the stack.
abbrev restarted : Server
restarted =
    make_sessions 2 0 (record (init_settings (record stopped { free_sessions = old_slots })) {
      max_user = 2;
      sessions = memory;
    })

restarted_lem :
    (start memory 4 2 2 true true (record stopped { free_sessions = old_slots })
      ≡ (true, restarted))
    × (restarted.free_sessions ≡ 1 ∷ 0 ∷ 1 ∷ 0 ∷ [])
unfolding start make_sessions init_settings
restarted_lem = (refl, refl)

start_again_example :
    (length restarted.free_sessions ≡ 2 + length old_slots)
    × (restarted.max_user < length restarted.free_sessions)
    × ¬ IsConsistent restarted
start_again_example =
    start_again memory 4 2 2 true true (record stopped { free_sessions = old_slots }) restarted
      (λ e. ground arith) restarted_lem.0
