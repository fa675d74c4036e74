-- ===== src/LoginServer/Tests.antt =====
-- Runs of the login, and each theorem at a server with one session.
use login_server_chat.Prelude.{
  ℕ, zero, suc, ◌-◌, ◌/◌, ◌%◌, ◌^◌, ◌<◌, ◌≤◌, ◌==◌, if◌then◌else◌, true, false, List, [], ◌∷◌, ◌++◌,
  length, length-read_at, read_at, read_at-all, ap, ◌∙◌, sym, subst, none, some, ◌≡◌, refl, arith,
  inr,
}
use login_server_chat.NetPacket.{NetPacket, header_size, encode, decode}
use login_server_chat.NetPacket.Cipher.{IsBytes}
use login_server_chat.NetPacket.Values.{le_bytes}
use login_server_chat.NetServer.Session.{
  Session, Server, increment, slot_of, invalid_long, packet_freed, send_posted, io_cancelled,
}
use login_server_chat.LoginServer.{
  Character, LoginServer, Database, Answers, account_no_fits, find, c_string, login_response,
  on_recv, on_client_join, on_client_leave,
}
use login_server_chat.LoginServer.Response.{response_fields, concat}
use login_server_chat.LoginServer.Wire.{
  IsClear, HasNames, login_response-IsResponse, encode_size, decode-login_response,
}
use login_server_chat.LoginServer.Answer.{IsThere, HasSent, CanAnswer}
use login_server_chat.LoginServer.Dispatch.{
  IsRequest, requested, named, on_recv-accepts, on_recv-refuses, on_recv-ends_process,
}
use login_server_chat.LoginServer.Characters.{OwnsCharacters}
use login_server_chat.LoginServer.Runs.{joins, leaves, none_yet, then_, Calls-OwnsCharacters}

abbrev copies : ℕ → ℕ → List ℕ
copies x zero = []
copies x (suc n) = x ∷ copies x n

-- A packet as the pool hands it out.
abbrev pool_packet : NetPacket
pool_packet = record {
  buffer = copies 205 164;
  write_pos = 5;
  read_pos = 5;
  ref_count = 0;
  is_encode = false;
  buffer_size = 164;
}

abbrev character : Character
character = record {
  session_id = 65536;
  account_no = 2 ^ 64 - 1;
  session_key = copies 205 65;
  last_recv_time = 3;
  id = copies 97 40;
  nickname = copies 98 40;
}

-- A login request for an account, with a key of 64 letters.
abbrev request : ℕ → NetPacket
request account_no = record {
  buffer = copies 0 5 ++ le_bytes 2 101 ++ le_bytes 8 account_no ++ copies 65 64;
  write_pos = 79;
  read_pos = 5;
  ref_count = 1;
  is_encode = false;
  buffer_size = 79;
}

-- The session of the character, in which a worker is.
abbrev entered : Session
entered = record {
  session_id = 65536;
  socket = 300;
  rel_socket = 300;
  io_count = 1;
  release_flag = 0;
  send_flag = 0;
  send_cnt = 0;
  send_q = [];
  send_packets = [];
  recv_q = record { buffer = []; front_next = 1; rear_next = 1; total_size = 5 };
}

abbrev net_server : Server
net_server = record {
  sessions = λ i. entered;
  packets = λ i. pool_packet;
  free_sessions = [];
  max_user = 2;
  now_session = 1;
  session_cnt = 1;
  accept_cnt = 1;
  send_cnt = 0;
  recv_cnt = 1;
  events = [];
}

abbrev server : LoginServer
server = record {
  server = net_server;
  character_map = (65536, character) ∷ [];
  in_use = 1;
  accept_total = 1;
  login_success_cnt = 0;
  redis = [];
}

-- A database that has a row for the accounts 7 and 2000000000, and widens a name to 40 bytes.
abbrev database : Database
database = record {
  req_query = λ account_no. true;
  fetch_row = λ account_no. (if account_no == 9 then none else some (97 ∷ [], 98 ∷ []));
  to_wide = λ old text. old;
}

abbrev answers : Answers
answers = record {
  tick = 8;
  packet = pool_packet;
  handle = 4;
  rand = 44;
  posted = true;
  type_before = 0;
}

request-IsRequest :
    (account_no : ℕ)
    → account_no < 2 ^ 64
    → IsRequest server 65536 (request account_no) character account_no (copies 65 64)
unfolding find read_at le_bytes
request-IsRequest account_no small = record {
  found = refl;
  valid = omega arith;
  message = refl;
  account_small = small;
  key_size = refl;
  room = refl;
}

net_server-IsThere : IsThere net_server 65536
unfolding slot_of
net_server-IsThere = record { entered = λ e. omega arith; same_id = refl }

pool_packet-IsClear : IsClear pool_packet
pool_packet-IsClear = record {
  valid = omega arith;
  read = refl;
  written = refl;
  fresh = refl;
  room = omega arith;
}

character-HasNames : HasNames character
character-HasNames = record {
  id_size = refl;
  nickname_size = refl;
  id_bytes = omega arith;
  nickname_bytes = omega arith;
}

-- The names are those of `character` in all of its records.
answers-CanAnswer :
    (c : Character) → c.id ≡ character.id → c.nickname ≡ character.nickname → CanAnswer answers c
answers-CanAnswer c id nickname = record {
  packet_clear = pool_packet-IsClear;
  unshared = refl;
  has_names = record {
    id_size = ap length id;
    nickname_size = ap length nickname;
    id_bytes = subst IsBytes (sym id) character-HasNames.id_bytes;
    nickname_bytes = subst IsBytes (sym nickname) character-HasNames.nickname_bytes;
  };
  job_posted = refl;
}

on_recv-accepts_example :
    let c' = named database (requested character 7 (copies 65 64) 8) (97 ∷ []) (98 ∷ []) in
    (s' : LoginServer) × (on_recv database server 65536 (request 7) answers ≡ some s')
    × (s'.redis ≡ (7, c_string (copies 65 64 ++ (0 ∷ []))) ∷ [])
    × (s'.login_success_cnt ≡ increment 0)
    × (find s'.character_map 65536 ≡ some c')
    × HasSent net_server 65536 4 (concat (response_fields c' 1)) s'.server
    × (s'.server.events ≡ packet_freed 4 ∷ send_posted (slot_of 65536) ∷ [])
unfolding account_no_fits
on_recv-accepts_example =
    on_recv-accepts database answers (request-IsRequest 7 (omega arith)) refl refl refl
      net_server-IsThere (omega arith) (answers-CanAnswer _ refl refl)

on_recv-refuses_example :
    let c' = requested character 9 (copies 65 64) 8 in
    (s' : LoginServer) × (on_recv database server 65536 (request 9) answers ≡ some s')
    × (s'.redis ≡ [])
    × (s'.login_success_cnt ≡ 0)
    × (find s'.character_map 65536 ≡ some c')
    × HasSent net_server 65536 4 (concat (response_fields c' 0)) s'.server
    × ((s'.server.sessions (slot_of 65536)).socket / 2 ^ 32 ≡ 300 / 2 ^ 32)
    × ((s'.server.sessions (slot_of 65536)).socket % 2 ^ 32 ≡ invalid_long)
    × (s'.server.events ≡ io_cancelled 300 ∷ packet_freed 4 ∷ send_posted (slot_of 65536) ∷ [])
on_recv-refuses_example =
    on_recv-refuses database answers (request-IsRequest 9 (omega arith)) (inr refl)
      net_server-IsThere (omega arith) (λ e. omega arith) (answers-CanAnswer _ refl refl)

on_recv-ends_process_example : on_recv database server 65536 (request 2000000000) answers ≡ none
on_recv-ends_process_example =
    on_recv-ends_process database answers (request-IsRequest 2000000000 (omega arith)) refl refl
      (omega arith) (omega arith)

server-OwnsCharacters : OwnsCharacters server
unfolding find
server-OwnsCharacters = record { own = ((refl, refl), refl, tt); used = refl }

Calls-OwnsCharacters_example :
    OwnsCharacters (on_client_leave (on_client_join server 131073 character 9) 65536)
unfolding find
Calls-OwnsCharacters_example =
    Calls-OwnsCharacters {db = database}
      (then_ (then_ none_yet (joins server 131073 character 9 refl refl)) (leaves _ 65536))
      server-OwnsCharacters

abbrev sent : NetPacket
sent = (encode 44 (login_response pool_packet character 1)).1

-- A packet that received the encoded response.
abbrev received : NetPacket
received = record pool_packet { buffer = read_at 0 sent.buffer 0 164 }

received_lem : read_at 0 received.buffer 0 164 ≡ read_at 0 sent.buffer 0 sent.write_pos
received_lem =
    ap (read_at 0 received.buffer 0) (sym (length-read_at 0 sent.buffer 0 164))
    ∙ read_at-all 0 received.buffer
    ∙ ap (read_at 0 sent.buffer 0)
        (sym (encode_size 44 (login_response-IsResponse 1 pool_packet-IsClear character-HasNames)))

received_size : 164 ≤ length received.buffer
received_size = omega (arith, length-read_at 0 sent.buffer 0 164)

decode-login_response_example :
    let (accepted, q') = decode received in
    (accepted ≡ true) × (read_at 0 q'.buffer header_size 159 ≡ concat (response_fields character 1))
decode-login_response_example =
    decode-login_response 1 44 received pool_packet-IsClear character-HasNames received_size
      received_lem
