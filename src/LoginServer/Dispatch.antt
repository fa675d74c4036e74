-- ===== src/LoginServer/Dispatch.antt =====
-- What `OnRecv` makes of a login request.
use login_server_chat.Prelude.{
  ℕ, ◌+◌, ◌-◌, ◌/◌, ◌%◌, ◌^◌, ◌<◌, ◌≤◌, true, false, inl, List, [], ◌∷◌, ◌++◌, length, take,
  take-append, append-nil, length-append, length-read_at, read_at, read_at-all, read_at-append,
  read_at-write_at_out, length-write_at, write_at, none, some, ◌≡◌, ◌≢◌, ◌⊎◌, refl, ap, ap₂, ◌∙◌,
  sym, arith,
}
use login_server_chat.NetPacket.{NetPacket, get_data, get_payload_size}
use login_server_chat.NetPacket.Cursors.{IsValid, unread, get_data-unread}
use login_server_chat.NetPacket.Wire.{read_back}
use login_server_chat.NetPacket.Values.{unsigned_short, int64, size_of, takes_reference, le_bytes}
use login_server_chat.NetPacket.Values.Stream.{shift_out-unread}
use login_server_chat.NetServer.Session.{
  increment, slot_of, invalid_long, packet_freed, send_posted, io_cancelled,
}
use login_server_chat.LoginServer.{
  Character, LoginServer, Database, Answers, find, write_character, req_login, read_login, fill_row,
  read_database, c_string, account_no_fits, answer_login, login_read, login, job_handler,
  recv_found, on_recv,
}
use login_server_chat.LoginServer.Response.{response_fields, concat}
use login_server_chat.LoginServer.Answer.{
  IsThere, HasSent, CanAnswer, send_response-HasSent, disconnect-send_response,
}

-- `GetData` of a size that is there hands out exactly the bytes in front.
get_data-front :
    {p : NetPacket} (size : ℕ) (xs rest : List ℕ)
    → IsValid p
    → length xs ≡ size
    → unread p ≡ xs ++ rest
    → (get_data p size).0 ≡ xs
unfolding get_payload_size
get_data-front {p} size xs rest v len e =
    let g = get_data-unread size v in
    let n_eq : (get_data p size).1 ≡ size = omega (
      arith,
      g.0,
      length-read_at 0 p.buffer p.read_pos (p.write_pos - p.read_pos),
      ap length e,
      length-append xs rest,
    ) in
    sym (take-append (get_data p size).0 (unread (get_data p size).2) size (g.1 ∙ n_eq))
    ∙ ap (take size) (g.3 ∙ e)
    ∙ take-append xs rest size len

-- The key is copied into the first 64 of 65 chars, and the last one is set to 0.
key_lem :
    (old key : List ℕ)
    → length old ≡ 65
    → length key ≡ 64
    → write_at (write_at old 0 key) 64 (0 ∷ []) ≡ key ++ (0 ∷ [])
key_lem old key old_len key_len =
    let whole : length (write_at (write_at old 0 key) 64 (0 ∷ [])) ≡ 64 + 1 =
      length-write_at (write_at old 0 key) 64 (0 ∷ []) ∙ length-write_at old 0 key ∙ old_len in
    sym (read_at-all 0 (write_at (write_at old 0 key) 64 (0 ∷ [])))
    ∙ ap (read_at 0 (write_at (write_at old 0 key) 64 (0 ∷ [])) 0) whole
    ∙ read_at-append 0 (write_at (write_at old 0 key) 64 (0 ∷ [])) 0 64 1
    ∙ ap₂ ◌++◌
        (read_at-write_at_out 0 (write_at old 0 key) 64 (0 ∷ []) 0 64 (inl (omega arith))
          ∙ read_back old 0 64 key key_len (omega arith))
        (read_back (write_at old 0 key) 64 1 (0 ∷ []) refl
          (omega (arith, length-write_at old 0 key)))

-- The character after `Login` has read a request with this account number and key.
abbrev pub requested : Character → ℕ → List ℕ → ℕ → Character
requested c account_no key tick = record c {
  last_recv_time = tick;
  account_no = account_no;
  session_key = key ++ (0 ∷ []);
}

read_login-request :
    {p : NetPacket} (c : Character) (account_no : ℕ) (key : List ℕ)
    → IsValid p
    → unread p ≡ le_bytes 8 account_no ++ key
    → account_no < 2 ^ 64
    → length key ≡ 64
    → length c.session_key ≡ 65
    → read_login p c ≡ record c { account_no = account_no; session_key = key ++ (0 ∷ []) }
unfolding read_login size_of takes_reference
read_login-request {p} c account_no key v e small key_len len =
    let t = shift_out-unread int64 account_no c.account_no key v e refl small in
    let front = get_data-front 64 key [] t.1 key_len (t.2 ∙ sym (append-nil key)) in
    rw (t.0, front, key_lem c.session_key key len key_len) refl

find-write_character :
    (entries : List (ℕ × Character)) (key : ℕ) (c c' : Character)
    → find entries key ≡ some c
    → find (write_character entries key c') key ≡ some c'
unfolding find write_character
find-write_character [] key c c' e = ground arith
find-write_character ((k, d) ∷ rest) key c c' e = ground (arith, find-write_character rest key c c')

-- `OnRecv` of a login request with a full key.
on_recv-request :
    (db : Database) (s : LoginServer) (session_id : ℕ) {p : NetPacket} (a : Answers) (c : Character)
    (account_no : ℕ) (key : List ℕ)
    → find s.character_map session_id ≡ some c
    → IsValid p
    → unread p ≡ le_bytes 2 req_login ++ (le_bytes 8 account_no ++ key)
    → account_no < 2 ^ 64
    → length key ≡ 64
    → length c.session_key ≡ 65
    → on_recv db s session_id p a
      ≡ login_read s session_id (read_database db (requested c account_no key a.tick)) a
unfolding on_recv recv_found job_handler login size_of takes_reference
on_recv-request db s session_id {p} a c account_no key found v e small key_len len =
    let t =
      shift_out-unread unsigned_short req_login a.type_before (le_bytes 8 account_no ++ key) v e
        refl (omega arith) in
    rw (found, t.0)
      (ap (λ c'. login_read s session_id (read_database db c') a)
        (read_login-request (record c { last_recv_time = a.tick }) account_no key t.1 t.2 small
          key_len len))

read_database-missing :
    (db : Database) (c : Character)
    → (db.req_query c.account_no ≡ false) ⊎ (db.fetch_row c.account_no ≡ none)
    → read_database db c ≡ (false, c)
unfolding read_database fill_row
read_database-missing db c missing = ground arith

-- A message of this session whose packet holds a whole login request.
pub record IsRequest (s : LoginServer) (session_id : ℕ) (p : NetPacket) (c : Character)
    (account_no : ℕ) (key : List ℕ) : Type 0 where
  pub found : find s.character_map session_id ≡ some c
  pub valid : IsValid p
  pub message : unread p ≡ le_bytes 2 req_login ++ (le_bytes 8 account_no ++ key)
  pub account_small : account_no < 2 ^ 64
  pub key_size : length key ≡ 64
  pub room : length c.session_key ≡ 65

-- The character with the names from the row of the database.
abbrev pub named : Database → Character → List ℕ → List ℕ → Character
named db c user_id user_nick = record c {
  id = db.to_wide c.id user_id;
  nickname = db.to_wide c.nickname user_nick;
}

-- A login request for an account of which the database has a row, and whose number has room in the
-- buffer of ten chars, when the session is there with fewer than 2 ^ 32 - 2 users, the packet from the
-- pool is clear, has no references and has room, id and nickname are 40 bytes and the job is posted: the
-- key goes to Redis under the account number, as a C string, one login is counted, the character of the
-- session holds the account, the key and the names, and a packet is put behind the others in the
-- session's queue and its job posted, which a client decodes to the response of the protocol with these
-- names and the status 1.
pub on_recv-accepts :
    (db : Database) {s : LoginServer} {session_id : ℕ} {p : NetPacket} (a : Answers) {c : Character}
    {account_no : ℕ} {key user_id user_nick : List ℕ}
    → IsRequest s session_id p c account_no key
    → db.req_query account_no ≡ true
    → db.fetch_row account_no ≡ some (user_id, user_nick)
    → account_no_fits account_no ≡ true
    → IsThere s.server c.session_id
    → (s.server.sessions (slot_of c.session_id)).io_count < 2 ^ 32 - 2
    → CanAnswer a (named db (requested c account_no key a.tick) user_id user_nick)
    → let c' = named db (requested c account_no key a.tick) user_id user_nick in
      (s' : LoginServer) × (on_recv db s session_id p a ≡ some s')
      × (s'.redis ≡ (account_no, c_string (key ++ (0 ∷ []))) ∷ s.redis)
      × (s'.login_success_cnt ≡ increment s.login_success_cnt)
      × (find s'.character_map session_id ≡ some c')
      × HasSent s.server c.session_id a.handle (concat (response_fields c' 1)) s'.server
      × (s'.server.events
          ≡ packet_freed a.handle ∷ send_posted (slot_of c.session_id) ∷ s.server.events)
unfolding login_read read_database fill_row answer_login
on_recv-accepts db {s} {session_id} {p} a {c} {account_no} {key} {user_id} {user_nick} r queried row
      fits there few can =
    let c' = named db (requested c account_no key a.tick) user_id user_nick in
    let sent = send_response-HasSent s.server c' 1 a there few can in
    (
      answer_login
          (record s {
            character_map = write_character s.character_map session_id c';
            redis = (account_no, c_string (key ++ (0 ∷ []))) ∷ s.redis;
          })
          c' true a,
      on_recv-request db s session_id a c account_no key r.found r.valid r.message r.account_small
            r.key_size r.room
          ∙ rw (queried, row, fits) refl,
      refl,
      refl,
      find-write_character s.character_map session_id c c' r.found,
      sent.0,
      sent.2,
    )

-- A login request for an account for which the query fails or has no row, when the session is there with
-- fewer than 2 ^ 32 - 2 users, the low half of its socket is not all ones, the packet from the pool is
-- clear, has no references and has room, id and nickname are 40 bytes and the job is posted: nothing goes
-- to Redis, no login is counted, a packet is put behind the others in the session's queue and its job
-- posted, which a client decodes to the response of the protocol with the status 0, and then the low half
-- of the socket is all ones, the upper half as before, and the I/O of the socket is cancelled.
pub on_recv-refuses :
    (db : Database) {s : LoginServer} {session_id : ℕ} {p : NetPacket} (a : Answers) {c : Character}
    {account_no : ℕ} {key : List ℕ}
    → IsRequest s session_id p c account_no key
    → (db.req_query account_no ≡ false) ⊎ (db.fetch_row account_no ≡ none)
    → IsThere s.server c.session_id
    → (s.server.sessions (slot_of c.session_id)).io_count < 2 ^ 32 - 2
    → (s.server.sessions (slot_of c.session_id)).socket % 2 ^ 32 ≢ invalid_long
    → CanAnswer a (requested c account_no key a.tick)
    → let c' = requested c account_no key a.tick in
      let session = s.server.sessions (slot_of c.session_id) in
      (s' : LoginServer) × (on_recv db s session_id p a ≡ some s')
      × (s'.redis ≡ s.redis)
      × (s'.login_success_cnt ≡ s.login_success_cnt)
      × (find s'.character_map session_id ≡ some c')
      × HasSent s.server c.session_id a.handle (concat (response_fields c' 0)) s'.server
      × ((s'.server.sessions (slot_of c.session_id)).socket / 2 ^ 32 ≡ session.socket / 2 ^ 32)
      × ((s'.server.sessions (slot_of c.session_id)).socket % 2 ^ 32 ≡ invalid_long)
      × (s'.server.events
          ≡ io_cancelled session.rel_socket
            ∷ packet_freed a.handle
            ∷ send_posted (slot_of c.session_id)
            ∷ s.server.events)
unfolding login_read answer_login
on_recv-refuses db {s} {session_id} {p} a {c} {account_no} {key} r missing there few live can =
    let c' = requested c account_no key a.tick in
    let sent = disconnect-send_response s.server c' a there few live can in
    (
      answer_login (record s { character_map = write_character s.character_map session_id c' }) c'
          false a,
      on_recv-request db s session_id a c account_no key r.found r.valid r.message r.account_small
            r.key_size r.room
          ∙ rw (read_database-missing db c' missing) refl,
      refl,
      refl,
      find-write_character s.character_map session_id c c' r.found,
      sent.0,
      sent.1,
      sent.2,
      sent.3,
    )

-- A login request for an account of which the database has a row, and whose number has ten digits or
-- more, or nine and a sign: `sprintf_s` into the buffer of ten chars ends the process.
pub on_recv-ends_process :
    (db : Database) {s : LoginServer} {session_id : ℕ} {p : NetPacket} (a : Answers) {c : Character}
    {account_no : ℕ} {key user_id user_nick : List ℕ}
    → IsRequest s session_id p c account_no key
    → db.req_query account_no ≡ true
    → db.fetch_row account_no ≡ some (user_id, user_nick)
    → 10 ^ 9 ≤ account_no
    → account_no ≤ 2 ^ 64 - 10 ^ 8
    → on_recv db s session_id p a ≡ none
unfolding login_read read_database fill_row account_no_fits
on_recv-ends_process db {s} {session_id} {p} a {c} {account_no} {key} r queried row long long' =
    on_recv-request db s session_id a c account_no key r.found r.valid r.message r.account_small
      r.key_size r.room
    ∙ rw (queried, row) (ground arith)
