-- ===== src/LoginServer/Runs.antt =====
-- Sequences of `OnClientJoin`, `OnClientLeave` and `OnRecv`.
use login_server_chat.Prelude.{
  ℕ, ◌==◌, Bool, true, false, Bool-cases, inl, inr, List, [], ◌∷◌, length, length-write_at,
  write_at, Option, none, some, ◌≡◌, refl, ◌∙◌, sym, subst, arith,
}
use login_server_chat.NetPacket.{NetPacket}
use login_server_chat.NetPacket.Values.{unsigned_short, shift_out}
use login_server_chat.LoginServer.{
  Character, LoginServer, Database, Answers, find, insert_entry, write_character, on_client_join,
  leave_found, on_client_leave, req_login, read_login, fill_row, read_database, account_no_fits,
  answer_login, login_read, login, job_handler, recv_found, on_recv,
}
use login_server_chat.LoginServer.Characters.{
  IsOf, OwnsCharacters, erase-AreOwn, length-erase, length-write_character, write-AreOwn, find-IsOf,
}

-- The call ended, and the characters are in order; or `sprintf_s` ended the process.
abbrev pub AreInOrder : Option LoginServer → Type 0
AreInOrder none = Unit {0}
AreInOrder (some s) = OwnsCharacters s

read_login-IsOf : (k : ℕ) (p : NetPacket) (c : Character) → IsOf k c → IsOf k (read_login p c)
unfolding read_login
read_login-IsOf k p c of = (
  of.0,
  length-write_at (write_at c.session_key 0 _) 64 (0 ∷ [])
      ∙ length-write_at c.session_key 0 _
      ∙ of.1,
)

read_database-IsOf :
    (db : Database) (k : ℕ) (c : Character) → IsOf k c → IsOf k (read_database db c).1
unfolding read_database fill_row
read_database-IsOf db k c of = elim (Bool-cases (db.req_query c.account_no)) [
  | inr failed ↦ rw failed of
  | inl answered ↦ rw answered (row-IsOf (db.fetch_row c.account_no))
]
  where
    row-IsOf : (row : Option (List ℕ × List ℕ)) → IsOf k (fill_row db row c).1
    row-IsOf none = of
    row-IsOf (some (user_id, user_nick)) = of

write-OwnsCharacters :
    (s : LoginServer) (k : ℕ) (c : Character)
    → OwnsCharacters s
    → IsOf k c
    → OwnsCharacters (record s { character_map = write_character s.character_map k c })
write-OwnsCharacters s k c o of = record {
  own = write-AreOwn s.character_map k c of o.own;
  used = o.used ∙ sym (length-write_character s.character_map k c);
}

login_read-AreInOrder :
    (s : LoginServer) (k : ℕ) (r : Bool × Character) (a : Answers)
    → OwnsCharacters s
    → IsOf k r.1
    → AreInOrder (login_read s k r a)
unfolding login_read answer_login
login_read-AreInOrder s k (true, c) a o of =
    let w = write-OwnsCharacters s k c o of in
    elim (Bool-cases (account_no_fits c.account_no)) [
      | inl fits ↦ rw fits (record { own = w.own; used = w.used })
      | inr long ↦ rw long tt
    ]
login_read-AreInOrder s k (false, c) a o of =
    let w = write-OwnsCharacters s k c o of in record { own = w.own; used = w.used }

job_handler-AreInOrder :
    (db : Database) (s : LoginServer) (k : ℕ) (c : Character) (p : NetPacket) (a : Answers)
    → OwnsCharacters s
    → IsOf k c
    → AreInOrder (job_handler db s k c p a)
unfolding job_handler login
job_handler-AreInOrder db s k c p a o of =
    let (type, p') = shift_out p unsigned_short a.type_before in
    elim (Bool-cases (type == req_login)) [
      | inl asked ↦ rw asked (
          login_read-AreInOrder s k (read_database db (read_login p' c)) a o
            (read_database-IsOf db k (read_login p' c) (read_login-IsOf k p' c of)))
      | inr other ↦ rw other (write-OwnsCharacters s k c o of)
    ]

recv_found-AreInOrder :
    (db : Database) (found : Option Character) (s : LoginServer) (session_id : ℕ) (p : NetPacket)
    (a : Answers)
    → find s.character_map session_id ≡ found
    → OwnsCharacters s
    → AreInOrder (recv_found db found s session_id p a)
unfolding recv_found
recv_found-AreInOrder db none s session_id p a e o = record { own = o.own; used = o.used }
recv_found-AreInOrder db (some c) s session_id p a e o =
    job_handler-AreInOrder db s session_id (record c { last_recv_time = a.tick }) p a o
      (find-IsOf s.character_map session_id c o.own e)

join-OwnsCharacters :
    (s : LoginServer) (session_id : ℕ) (character : Character) (tick : ℕ)
    → find s.character_map session_id ≡ none
    → length character.session_key ≡ 65
    → OwnsCharacters s
    → OwnsCharacters (on_client_join s session_id character tick)
unfolding on_client_join insert_entry
join-OwnsCharacters s session_id character tick new len o =
    rw new (record { own = ((refl, len), new, o.own); used = omega (arith, o.used) })

leave-OwnsCharacters :
    (s : LoginServer) (session_id : ℕ) (found : Option Character)
    → find s.character_map session_id ≡ found
    → OwnsCharacters s
    → OwnsCharacters (leave_found found s session_id)
unfolding leave_found
leave-OwnsCharacters s session_id none e o = o
leave-OwnsCharacters s session_id (some c) e o = record {
  own = erase-AreOwn s.character_map session_id o.own;
  used = omega (arith, o.used, length-erase s.character_map session_id c e);
}

-- One call. `OnClientJoin` gets an id that is not in the map and a character with a key array of 65.
pub data Call (db : Database) : LoginServer → LoginServer → Type 0 where
  joins :
      (s : LoginServer) (session_id : ℕ) (character : Character) (tick : ℕ)
      → find s.character_map session_id ≡ none
      → length character.session_key ≡ 65
      → Call db s (on_client_join s session_id character tick)
  leaves : (s : LoginServer) (session_id : ℕ) → Call db s (on_client_leave s session_id)
  receives :
      (s s' : LoginServer) (session_id : ℕ) (p : NetPacket) (a : Answers)
      → on_recv db s session_id p a ≡ some s'
      → Call db s s'

pub data Calls (db : Database) (s : LoginServer) : LoginServer → Type 0 where
  none_yet : Calls db s s
  then_ : {t u : LoginServer} → Calls db s t → Call db t u → Calls db s u

Call-OwnsCharacters :
    {db : Database} {s s' : LoginServer} → Call db s s' → OwnsCharacters s → OwnsCharacters s'
unfolding on_recv on_client_leave
Call-OwnsCharacters (joins s session_id character tick new len) o =
    join-OwnsCharacters s session_id character tick new len o
Call-OwnsCharacters (leaves s session_id) o =
    leave-OwnsCharacters s session_id (find s.character_map session_id) refl o
Call-OwnsCharacters {db} (receives s s' session_id p a e) o =
    subst AreInOrder e
      (recv_found-AreInOrder db (find s.character_map session_id) s session_id p a refl o)

-- Whatever calls follow one another, in any order, when no session joins under an id that is in the
-- map: each session has one entry in `characterMap`, with its own character, and the characters taken
-- from the pool are as many as the entries, so that none is lost and none is freed twice.
pub Calls-OwnsCharacters :
    {db : Database} {s s' : LoginServer} → Calls db s s' → OwnsCharacters s → OwnsCharacters s'
Calls-OwnsCharacters none_yet o = o
Calls-OwnsCharacters (then_ before call) o =
    Call-OwnsCharacters call (Calls-OwnsCharacters before o)
