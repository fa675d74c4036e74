-- ===== src/NetServer/Session.antt =====
-- The sessions of `CNetServer` (LoginServer_Chat/CNetServer.cpp, CNetServer.h): the count of users of
-- a session, its release, and the calls that go through it. A function is a run of one call.
pub mod Counts
pub mod Stale
pub mod Slots
pub mod Lifecycle
pub mod Reachable
pub mod Disconnect
mod Tests
use login_server_chat.Prelude.{
  ℕ, zero, suc, ◌+◌, ◌-◌, ◌*◌, ◌/◌, ◌%◌, ◌^◌, ◌==◌, ltb, if◌then◌else◌, Bool, true, false, List, [],
  ◌∷◌, ◌++◌, take, map,
}
use login_server_chat.RingBuffer.{Ring, clear_buffer}
use login_server_chat.NetPacket.{NetPacket, add_ref_count, encode}

-- `struct SESSION`. `send_q` and `send_packets` hold the handles of packets.
pub record Session : Type 0 where
  pub session_id : ℕ
  pub socket : ℕ
  pub rel_socket : ℕ
  pub io_count : ℕ
  pub release_flag : ℕ
  pub send_flag : ℕ
  pub send_cnt : ℕ
  pub send_q : List ℕ
  pub send_packets : List ℕ
  pub recv_q : Ring

-- What a call does outside of the server's memory, and the packets that it gives back.
pub data Event : Type 0 where
  client_joined : ℕ → Event
  client_left : ℕ → Event
  socket_closed : ℕ → Event
  io_cancelled : ℕ → Event
  packet_freed : ℕ → Event
  send_posted : ℕ → Event
  release_posted : ℕ → Event
  packets_sent : List ℕ → Event

-- A handle stands for a packet in `packets`. `events` has the latest first.
pub record Server : Type 0 where
  pub sessions : ℕ → Session
  pub packets : ℕ → NetPacket
  pub free_sessions : List ℕ
  pub max_user : ℕ
  pub now_session : ℕ
  pub session_cnt : ℕ
  pub accept_cnt : ℕ
  pub send_cnt : ℕ
  pub recv_cnt : ℕ
  pub events : List Event

unfoldable pub update {ℓ} : {A : Type ℓ} → (ℕ → A) → ℕ → A → ℕ → A
update f i x j = if j == i then x else f j

-- `InterlockedIncrement` and `InterlockedDecrement` on 32 bits.
unfoldable pub increment : ℕ → ℕ
increment n = (n + 1) % 2 ^ 32

unfoldable pub decrement : ℕ → ℕ
decrement n = (n + (2 ^ 32 - 1)) % 2 ^ 32

-- `INVALID_SOCKET`, and the low half of it that a `LONG` can hold.
abbrev pub invalid_socket : ℕ
invalid_socket = 2 ^ 64 - 1

abbrev pub invalid_long : ℕ
invalid_long = 2 ^ 32 - 1

unfoldable pub set_session : Server → ℕ → Session → Server
set_session s i session = record s { sessions = update s.sessions i session }

unfoldable pub emit : Server → Event → Server
emit s e = record s { events = e ∷ s.events }

unfoldable pub request_release : Server → ℕ → Server
request_release s i = emit s (release_posted i)

unfoldable pub leave_session : Server → ℕ → Server
leave_session s i =
    let session = s.sessions i in
    let count = decrement session.io_count in
    let s' = set_session s i (record session { io_count = count }) in
    if count == 0 then request_release s' i else s'

-- There is a session for each index here; the source reads past its array for an id whose slot is not
-- below `_maxUser`.
unfoldable pub enter_session : Server → ℕ → ℕ → Bool × Server
enter_session s i session_id =
    let session = s.sessions i in
    let s' = set_session s i (record session { io_count = increment session.io_count }) in
    if session.release_flag == 1
    then (false, leave_session s' i)
    else if session.session_id == session_id
    then (true, s')
    else (false, leave_session s' i)

-- `(USHORT)sessionID`.
unfoldable pub slot_of : ℕ → ℕ
slot_of session_id = session_id % 2 ^ 16

-- `InterlockedExchange` on a `PLONG`: the low 32 bits of the socket.
unfoldable pub exchange_low : ℕ → ℕ
exchange_low socket = socket / 2 ^ 32 * 2 ^ 32 + invalid_long

-- The old value, as a `LONG`, equals `INVALID_SOCKET` when its 32 bits are all set.
unfoldable pub disconnect_entered : Server → ℕ → Bool × Server
disconnect_entered s i =
    let session = s.sessions i in
    let s' = set_session s i (record session { socket = exchange_low session.socket }) in
    if session.socket % 2 ^ 32 == invalid_long
    then (false, leave_session s' i)
    else (true, leave_session (emit s' (io_cancelled session.rel_socket)) i)

unfoldable pub disconnect : Server → ℕ → Bool × Server
disconnect s session_id =
    let (entered, s') = enter_session s (slot_of session_id) session_id in
    if entered then disconnect_entered s' (slot_of session_id) else (false, s')

-- `rand` is what `rand()` returns in `Encode`, `posted` what `PostQueuedCompletionStatus` returns.
unfoldable pub send_entered : Server → ℕ → ℕ → ℕ → Bool → Server
send_entered s i packet rand posted =
    let session = s.sessions i in
    let encoded = (encode rand (add_ref_count (s.packets packet))).1 in
    let s' : Server = record s {
      send_cnt = increment s.send_cnt;
      packets = update s.packets packet encoded;
      sessions = update s.sessions i (record session { send_q = session.send_q ++ (packet ∷ []) });
    } in
    if posted then emit s' (send_posted i) else leave_session s' i

unfoldable pub send_packet : Server → ℕ → ℕ → ℕ → Bool → Bool × Server
send_packet s session_id packet rand posted =
    let (entered, s') = enter_session s (slot_of session_id) session_id in
    if entered then (true, send_entered s' (slot_of session_id) packet rand posted) else (false, s')

-- The loops of `ReleaseSession` over the queue and the array, the latest event first.
unfoldable pub free_packets : List ℕ → List Event → List Event
free_packets [] events = events
free_packets (packet ∷ packets) events = free_packets packets (packet_freed packet ∷ events)

-- After the exchange: the session is the caller's alone. The `Free` of its packets is an event here; what
-- it does to their counts is `packet_free` in NetPacket.
unfoldable pub release_owned : Server → ℕ → Server
release_owned s i =
    let session = s.sessions i in
    record s {
      sessions = update s.sessions i (record session { send_q = [] });
      free_sessions = slot_of session.session_id ∷ s.free_sessions;
      now_session = decrement s.now_session;
      events =
          client_left session.session_id
          ∷ socket_closed session.rel_socket
          ∷ free_packets (take session.send_cnt session.send_packets)
              (free_packets session.send_q s.events);
    }

-- The exchange compares count and flag in one, and sets the flag.
unfoldable pub release_session : Server → ℕ → Server
release_session s i =
    let session = s.sessions i in
    if session.io_count == 0
    then (if session.release_flag == 0
        then release_owned (set_session s i (record session { release_flag = 1 })) i
        else s)
    else s

-- What `WSARecv` answers: it goes on in the background, or it does not.
pub data Posted : Type 0 where
  completed : Posted
  pending : Posted
  failed : Posted

unfoldable pub first_receive : Server → ℕ → Posted → Server
first_receive s i completed = s
first_receive s i pending =
    if (s.sessions i).socket == invalid_socket
    then emit s (io_cancelled (s.sessions i).rel_socket)
    else s
first_receive s i failed =
    let session = s.sessions i in
    let count = decrement session.io_count in
    let s' = set_session s i (record session { io_count = count }) in
    if count == 0 then release_session s' i else s'

unfoldable pub next_session_cnt : ℕ → ℕ
next_session_cnt cnt = let cnt' = (cnt + 1) % 2 ^ 64 in if ltb 0xFFFFFFFFFFFF cnt' then 1 else cnt'

-- The slot is below 2 ^ 16 and the low 16 bits of the shifted count are 0, so that `|` is `+`.
unfoldable pub make_session_id : ℕ → ℕ → ℕ
make_session_id cnt slot = cnt * 2 ^ 16 % 2 ^ 64 + slot

unfoldable pub open_session : Session → ℕ → ℕ → Session
open_session session client_sock session_id = record session {
  io_count = increment session.io_count;
  socket = client_sock;
  rel_socket = client_sock;
  session_id = session_id;
  release_flag = 0;
  send_flag = 0;
  send_cnt = 0;
  recv_q = clear_buffer session.recv_q;
}

-- How a round of `AcceptThread` ends: with the next one, in the loop around `Pop`, or with the thread.
pub data Accepted : Type 0 where
  next_round : Server → Accepted
  spins : Server → Accepted
  thread_ends : Server → Accepted

-- From `Pop` on. `joined` is what `CreateIoCompletionPort` returns.
unfoldable pub accept_slot : List ℕ → Server → ℕ → Bool → Posted → Accepted
accept_slot [] s client_sock joined posted = spins s
accept_slot (slot ∷ free_sessions) s client_sock joined posted =
    let session = s.sessions slot in
    let session_id = make_session_id s.session_cnt slot in
    let s' : Server = record s {
      free_sessions = free_sessions;
      sessions = update s.sessions slot (open_session session client_sock session_id);
    } in
    if joined
    then (let s'' = first_receive (emit s' (client_joined session_id)) slot posted in
        next_round (record s'' { recv_cnt = increment s''.recv_cnt }))
    else thread_ends s'

-- A round after `accept` has returned `client_sock`; `allowed` is what `OnConnectionRequest` returns.
unfoldable pub accept_client : Server → ℕ → Bool → Bool → Posted → Accepted
accept_client s client_sock allowed joined posted =
    let counted : Server = record s { accept_cnt = increment s.accept_cnt } in
    if s.now_session == s.max_user
    then next_round (emit counted (socket_closed client_sock))
    else if allowed
    then accept_slot s.free_sessions
        (record counted {
          now_session = increment s.now_session;
          session_cnt = next_session_cnt s.session_cnt;
        })
        client_sock joined posted
    else next_round (emit counted (socket_closed client_sock))
