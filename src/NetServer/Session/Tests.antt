-- ===== src/NetServer/Session/Tests.antt =====
-- Runs of the calls on a server of two slots, and each theorem there.
use login_server_chat.Prelude.{
  ◌/◌, ◌%◌, ℕ, zero, suc, ◌-◌, ◌^◌, ◌<◌, [], ◌∷◌, ◌≡◌, ◌≢◌, refl, arith, true, false, inr,
}
use login_server_chat.NetPacket.{NetPacket}
use login_server_chat.NetServer.Session.{
  Session, Server, invalid_socket, invalid_long, enter_session, leave_session, release_session,
  release_owned, set_session, emit, update, increment, decrement, slot_of, disconnect,
  disconnect_entered, exchange_low, request_release, free_packets, client_left, socket_closed,
  packet_freed, io_cancelled, release_posted, send_packet, failed, accept_client,
}
use login_server_chat.NetServer.Session.Counts.{refused}
use login_server_chat.NetServer.Session.Stale.{calls_stale}
use login_server_chat.NetServer.Session.Slots.{IsConsistent, count_open}
use login_server_chat.NetServer.Session.Lifecycle.{Settles, accept_client-Settles}
use login_server_chat.NetServer.Session.Reachable.{
  disconnects, releases, here, after, Reaches-IsConsistent,
}
use login_server_chat.NetServer.Session.Disconnect.{disconnect-socket}

abbrev idle : Session
idle = record {
  session_id = 0;
  socket = 0;
  rel_socket = 0;
  io_count = 0;
  release_flag = 1;
  send_flag = 0;
  send_cnt = 0;
  send_q = [];
  send_packets = [];
  recv_q = record { buffer = []; front_next = 1; rear_next = 1; total_size = 5 };
}

-- The first session that was accepted, in slot 0, with a receive in flight.
abbrev live : Session
live = record idle {
  session_id = 65536;
  socket = 300;
  rel_socket = 300;
  io_count = 1;
  release_flag = 0;
  send_q = 7 ∷ 8 ∷ [];
}

abbrev slots : ℕ → Session
slots zero = live
slots (suc i) = idle

abbrev packet : NetPacket
packet = record {
  buffer = [];
  write_pos = 5;
  read_pos = 5;
  ref_count = 1;
  is_encode = false;
  buffer_size = 0;
}

abbrev server : Server
server = record {
  sessions = slots;
  packets = λ n. packet;
  free_sessions = 1 ∷ [];
  max_user = 2;
  now_session = 1;
  session_cnt = 1;
  accept_cnt = 1;
  send_cnt = 0;
  recv_cnt = 1;
  events = [];
}

slots_ids : (i : ℕ) → (slots i).release_flag ≡ 0 → slot_of (slots i).session_id ≡ i
unfolding slot_of
slots_ids zero e = refl
slots_ids (suc i) e = ground arith

server-IsConsistent : IsConsistent server
unfolding count_open
server-IsConsistent = record {
  counted = refl;
  opened = refl;
  bounded = omega arith;
  free = (refl, omega arith, tt, tt);
  ids = slots_ids;
}

-- The last user leaves: the packets of the queue are given back and the socket is closed.
release_session-leave_session :
    (release_session (leave_session server 0) 0).events
    ≡ client_left 65536
      ∷ socket_closed 300
      ∷ packet_freed 8
      ∷ packet_freed 7
      ∷ release_posted 0
      ∷ []
unfolding release_session release_owned leave_session set_session emit update decrement
    request_release free_packets
release_session-leave_session = refl

disconnect-server :
    ((disconnect server 65536).1.events ≡ io_cancelled 300 ∷ [])
    × (((disconnect server 65536).1.sessions 0).socket ≡ 4294967295)
unfolding disconnect disconnect_entered enter_session leave_session set_session emit update
    increment decrement request_release slot_of exchange_low
disconnect-server = (refl, refl)

server_enters : (enter_session server 0 65536).0 ≡ true
unfolding enter_session
server_enters = refl

old_slot : slot_of 131072 ≡ 0
unfolding slot_of
old_slot = refl

calls_stale_example :
    (send_packet server 131072 3 41 true ≡ (false, refused server (slot_of 131072)))
    × (disconnect server 131072 ≡ (false, refused server (slot_of 131072)))
calls_stale_example =
    calls_stale server 131072 3 41 true (inr (rw old_slot (λ e. omega arith)))
      (rw old_slot (omega arith))

accept_client-Settles_example : Settles (accept_client server 400 true true failed)
accept_client-Settles_example =
    accept_client-Settles server 400 true true failed server-IsConsistent

disconnected_max : 0 < (disconnect server 65536).1.max_user
unfolding disconnect disconnect_entered enter_session leave_session set_session emit update
    increment decrement request_release slot_of exchange_low
disconnected_max = omega arith

server_small : (server.sessions (slot_of 65536)).socket < 2 ^ 64 - 2 ^ 32
unfolding slot_of
server_small = omega arith

Reaches-IsConsistent_example : IsConsistent (release_session (disconnect server 65536).1 0)
Reaches-IsConsistent_example =
    Reaches-IsConsistent server _
      (after _ _ _ (after _ _ _ (here server) (disconnects server 65536))
        (releases (disconnect server 65536).1 0 disconnected_max))
      server-IsConsistent

disconnect-socket_example :
    let socket' = ((disconnect server 65536).1.sessions (slot_of 65536)).socket in
    (socket' % 2 ^ 32 ≡ invalid_long) × (socket' / 2 ^ 32 ≡ 0) × (socket' ≢ invalid_socket)
unfolding slot_of
disconnect-socket_example = disconnect-socket server 65536 (λ e. omega arith) refl server_small
