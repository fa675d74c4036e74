-- ===== src/LoginServer.antt =====
-- `LoginServer` (LoginServer_Chat/LoginServer.cpp, LoginServer.h): the characters of the sessions,
-- the dispatch of a message, and the login with its response. A function is a run of one call.
pub mod Response
pub mod Wire
pub mod Answer
pub mod Characters
pub mod Dispatch
pub mod Runs
mod Tests
use login_server_chat.Prelude.{
  ℕ, ◌+◌, ◌-◌, ◌%◌, ◌^◌, ◌==◌, ltb, if◌then◌else◌, Bool, true, false, List, [], ◌∷◌, take, drop,
  write_at, ◌||◌, Option, none, some,
}
use login_server_chat.NetPacket.{NetPacket, get_data, set_data, packet_alloc, packet_free}
use login_server_chat.NetPacket.Values.{
  unsigned_char, unsigned_short, int64, shift_in, shift_out, le_bytes,
}
use login_server_chat.NetServer.Session.{
  Server, update, increment, emit, packet_freed, send_packet, disconnect,
}

-- `Character`. An account number is its bit pattern. `id` and `nickname` are the memory of the arrays
-- of 20 wide characters that `Login` fills and sends; the class in LoginServer.h has no such members.
pub record Character : Type 0 where
  pub session_id : ℕ
  pub account_no : ℕ
  pub session_key : List ℕ
  pub last_recv_time : ℕ
  pub id : List ℕ
  pub nickname : List ℕ

-- `characterMap` has its entries in any order; `in_use` counts the characters taken from their pool.
-- `redis` is what was set there, the latest first: an account number and a session key.
pub record LoginServer : Type 0 where
  pub server : Server
  pub character_map : List (ℕ × Character)
  pub in_use : ℕ
  pub accept_total : ℕ
  pub login_success_cnt : ℕ
  pub redis : List (ℕ × List ℕ)

-- What the database answers to the query for an account: no result, or a result with no row or with
-- the columns of its first row. `to_wide` is `MultiByteToWideChar` into an array that held `old`.
pub record Database : Type 0 where
  pub req_query : ℕ → Bool
  pub fetch_row : ℕ → Option (List ℕ × List ℕ)
  pub to_wide : List ℕ → List ℕ → List ℕ

-- What the system answers in the course of a call: the time, the packet that the pool hands out and
-- its handle, `rand()`, whether the send could be posted, and what the variable `type`, which has no
-- initializer, finds in memory.
pub record Answers : Type 0 where
  pub tick : ℕ
  pub packet : NetPacket
  pub handle : ℕ
  pub rand : ℕ
  pub posted : Bool
  pub type_before : ℕ

unfoldable pub find : List (ℕ × Character) → ℕ → Option Character
find [] session_id = none
find ((k, c) ∷ rest) session_id = if k == session_id then some c else find rest session_id

-- `insert` keeps an entry that is there.
unfoldable pub insert_entry :
    Option Character → List (ℕ × Character) → ℕ → Character → List (ℕ × Character)
insert_entry none entries session_id c = (session_id, c) ∷ entries
insert_entry (some old) entries session_id c = entries

unfoldable pub erase : List (ℕ × Character) → ℕ → List (ℕ × Character)
erase [] session_id = []
erase ((k, c) ∷ rest) session_id = if k == session_id then rest else (k, c) ∷ erase rest session_id

-- A write through the pointer that the map holds.
unfoldable pub write_character : List (ℕ × Character) → ℕ → Character → List (ℕ × Character)
write_character [] session_id c' = []
write_character ((k, c) ∷ rest) session_id c' =
    if k == session_id then (k, c') ∷ rest else (k, c) ∷ write_character rest session_id c'

-- `character` is what the pool hands out, constructed anew.
unfoldable pub on_client_join : LoginServer → ℕ → Character → ℕ → LoginServer
on_client_join s session_id character tick =
    let new_character : Character = record character {
      account_no = 2 ^ 64 - 1;
      session_id = session_id;
      last_recv_time = tick;
    } in
    record s {
      accept_total = increment s.accept_total;
      in_use = s.in_use + 1;
      character_map =
          insert_entry (find s.character_map session_id) s.character_map session_id new_character;
    }

unfoldable pub leave_found : Option Character → LoginServer → ℕ → LoginServer
leave_found none s session_id = s
leave_found (some c) s session_id = record s {
  in_use = s.in_use - 1;
  character_map = erase s.character_map session_id;
}

unfoldable pub on_client_leave : LoginServer → ℕ → LoginServer
on_client_leave s session_id = leave_found (find s.character_map session_id) s session_id

abbrev pub req_login : ℕ
req_login = 101

abbrev pub res_login : ℕ
res_login = 102

-- `WCHAR [16]` with the text 127.0.0.1.
abbrev pub server_ip : List ℕ
server_ip =
    49 ∷ 0 ∷ 50 ∷ 0 ∷ 55 ∷ 0 ∷ 46 ∷ 0 ∷ 48 ∷ 0 ∷ 46 ∷ 0 ∷ 48 ∷ 0 ∷ 46 ∷ 0 ∷ 49 ∷ 0 ∷ 0 ∷ 0 ∷ 0 ∷ 0
    ∷ 0 ∷ 0 ∷ 0 ∷ 0 ∷ 0 ∷ 0 ∷ 0 ∷ 0 ∷ 0 ∷ 0 ∷ []

abbrev pub game_server_port : ℕ
game_server_port = 20002

abbrev pub chat_server_port : ℕ
chat_server_port = 20000

-- The packet of the response, from `Alloc` to the last `SetData`.
pub login_response : NetPacket → Character → ℕ → NetPacket
login_response packet c is_success =
    let p = packet_alloc packet in
    let p = shift_in p unsigned_short res_login in
    let p = shift_in p int64 c.account_no in
    let p = shift_in p unsigned_char is_success in
    let p = (set_data p c.id 40).1 in
    let p = (set_data p c.nickname 40).1 in
    let p = (set_data p server_ip 32).1 in
    let p = (set_data p (le_bytes 2 game_server_port) 2).1 in
    let p = (set_data p server_ip 32).1 in (set_data p (le_bytes 2 chat_server_port) 2).1

-- `*pPacket >> _accountNo` and `GetData` into the first 64 of the 65 bytes of the key.
unfoldable pub read_login : NetPacket → Character → Character
read_login packet c =
    let (account_no, packet') = shift_out packet int64 c.account_no in
    let (out, n, packet'') = get_data packet' 64 in
    record c {
      account_no = account_no;
      session_key = write_at (write_at c.session_key 0 out) 64 (0 ∷ []);
    }

unfoldable pub fill_row : Database → Option (List ℕ × List ℕ) → Character → Bool × Character
fill_row db none c = (false, c)
fill_row db (some (user_id, user_nick)) c =
    (true, record c { id = db.to_wide c.id user_id; nickname = db.to_wide c.nickname user_nick })

-- `DB Read`: `isSuccess`, and the character.
unfoldable pub read_database : Database → Character → Bool × Character
read_database db c =
    if db.req_query c.account_no then fill_row db (db.fetch_row c.account_no) c else (false, c)

-- Whether `sprintf_s` has room in ten chars for the decimal digits, the sign and the final 0.
unfoldable pub account_no_fits : ℕ → Bool
account_no_fits account_no = ltb account_no (10 ^ 9) || ltb (2 ^ 64 - 10 ^ 8) account_no

-- The response is sent, and the caller's reference given back.
unfoldable pub send_response : Server → Character → ℕ → Answers → Server
send_response server c is_success a =
    let filled : Server = record server {
      packets = update server.packets a.handle (login_response a.packet c is_success);
    } in
    let (sent, server') = send_packet filled c.session_id a.handle a.rand a.posted in
    let (returned, packet') = packet_free (server'.packets a.handle) in
    record server' {
      packets = update server'.packets a.handle packet';
      events = packet_freed a.handle ∷ server'.events;
    }

-- The end of `Login`. A login that failed disconnects the session.
unfoldable pub answer_login : LoginServer → Character → Bool → Answers → LoginServer
answer_login s c true a = record s {
  server = send_response s.server c 1 a;
  login_success_cnt = increment s.login_success_cnt;
}
answer_login s c false a = record s {
  server = (disconnect (send_response s.server c 0 a) c.session_id).1;
}

-- A `char` array as a C string: up to its first 0.
unfoldable pub c_string : List ℕ → List ℕ
c_string [] = []
c_string (x ∷ xs) = if x == 0 then [] else x ∷ c_string xs

-- `none` when `sprintf_s` ends the process. `key` stands for the pointer: the entry of the character.
unfoldable pub login_read : LoginServer → ℕ → Bool × Character → Answers → Option LoginServer
login_read s key (true, c) a =
    if account_no_fits c.account_no
    then some (
        answer_login
          (record s {
            character_map = write_character s.character_map key c;
            redis = (c.account_no, c_string c.session_key) ∷ s.redis;
          })
          c true a)
    else none
login_read s key (false, c) a =
    some
      (answer_login (record s { character_map = write_character s.character_map key c }) c false a)

unfoldable pub login :
    Database → LoginServer → ℕ → Character → NetPacket → Answers → Option LoginServer
login db s key c packet a = login_read s key (read_database db (read_login packet c)) a

unfoldable pub job_handler :
    Database → LoginServer → ℕ → Character → NetPacket → Answers → Option LoginServer
job_handler db s key c packet a =
    let (type, packet') = shift_out packet unsigned_short a.type_before in
    if type == req_login
    then login db s key c packet' a
    else some (record s { character_map = write_character s.character_map key c })

unfoldable pub recv_found :
    Database → Option Character → LoginServer → ℕ → NetPacket → Answers → Option LoginServer
recv_found db none s session_id packet a =
    some (record s { server = (disconnect s.server session_id).1 })
recv_found db (some c) s session_id packet a =
    job_handler db s session_id (record c { last_recv_time = a.tick }) packet a

unfoldable pub on_recv : Database → LoginServer → ℕ → NetPacket → Answers → Option LoginServer
on_recv db s session_id packet a =
    recv_found db (find s.character_map session_id) s session_id packet a
