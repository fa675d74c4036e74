-- ===== src/LoginServer/Response.antt =====
-- The bytes of the login response.
use login_server_chat.Prelude.{
  ℕ, ◌+◌, ◌≤◌, List, [], ◌∷◌, ◌++◌, length, append_assoc, append-nil, ◌≡◌, refl, ap, ◌∙◌, sym,
  arith,
}
use login_server_chat.NetPacket.{NetPacket, set_data, packet_alloc, add_ref_count}
use login_server_chat.NetPacket.Cursors.{IsValid, unread, set_data-room}
use login_server_chat.NetPacket.Values.{
  ValueType, unsigned_char, unsigned_short, int64, size_of, shift_in, le_bytes,
}
use login_server_chat.NetPacket.Values.Stream.{shift_in-unread, length-le_bytes}
use login_server_chat.LoginServer.{
  Character, res_login, server_ip, game_server_port, chat_server_port, login_response,
}

-- `p'` is the valid packet `p` with the `n` bytes `xs` behind its unread bytes.
pub record Appended (p : NetPacket) (n : ℕ) (xs : List ℕ) (p' : NetPacket) : Type 0 where
  pub valid : IsValid p'
  pub bytes : unread p' ≡ unread p ++ xs
  pub count : p'.write_pos ≡ p.write_pos + n
  pub same_size : p'.buffer_size ≡ p.buffer_size

Appended-data :
    {p q : NetPacket} (n : ℕ) (xs ys : List ℕ) (m : ℕ)
    → Appended p n xs q
    → length ys ≡ m
    → p.write_pos + n + m ≤ p.buffer_size
    → Appended p (n + m) (xs ++ ys) (set_data q ys m).1
Appended-data {p} {q} n xs ys m a len room =
    let s = set_data-room ys m a.valid len (omega (arith, a.count, a.same_size)) in
    record {
      valid = s.0;
      bytes = s.1 ∙ ap (λ l. l ++ ys) a.bytes ∙ append_assoc (unread p) xs ys;
      count = omega (arith, s.2, a.count);
      same_size = s.3 ∙ a.same_size;
    }

Appended-value :
    {p q : NetPacket} (n : ℕ) (xs : List ℕ) (t : ValueType) (val : ℕ)
    → Appended p n xs q
    → p.write_pos + n + size_of t ≤ p.buffer_size
    → Appended p (n + size_of t) (xs ++ le_bytes (size_of t) val) (shift_in q t val)
Appended-value {p} {q} n xs t val a room =
    let s = shift_in-unread t val a.valid (omega (arith, a.count, a.same_size)) in
    record {
      valid = s.0;
      bytes =
          s.1
          ∙ ap (λ l. l ++ le_bytes (size_of t) val) a.bytes
          ∙ append_assoc (unread p) xs (le_bytes (size_of t) val);
      count = omega (arith, s.2, a.count);
      same_size = s.3 ∙ a.same_size;
    }

-- The message that CommonProtocol.h describes for `en_PACKET_CS_LOGIN_RES_LOGIN`, field by field.
abbrev pub response_fields : Character → ℕ → List (List ℕ)
response_fields c is_success =
    le_bytes 2 res_login
    ∷ le_bytes 8 c.account_no
    ∷ le_bytes 1 is_success
    ∷ c.id
    ∷ c.nickname
    ∷ server_ip
    ∷ le_bytes 2 game_server_port
    ∷ server_ip
    ∷ le_bytes 2 chat_server_port
    ∷ []

abbrev pub concat : List (List ℕ) → List ℕ
concat [] = []
concat (xs ∷ xss) = xs ++ concat xss

-- `Login` writes the response as the protocol describes it, whole: for a packet from the pool with
-- room for 164 bytes, and an id and a nickname of 20 wide characters.
pub login_response-bytes :
    {p : NetPacket} (c : Character) (is_success : ℕ)
    → IsValid p
    → unread p ≡ []
    → p.write_pos + 159 ≤ p.buffer_size
    → length c.id ≡ 40
    → length c.nickname ≡ 40
    → let p' = login_response p c is_success in
      IsValid p'
      × (unread p' ≡ concat (response_fields c is_success))
      × (p'.write_pos ≡ p.write_pos + 159)
unfolding login_response size_of packet_alloc add_ref_count
login_response-bytes {p} c is_success v empty room id_len nick_len =
    let a0 : Appended p 0 [] (packet_alloc p) = record {
      valid = omega arith;
      bytes = sym (append-nil (unread p));
      count = omega arith;
      same_size = refl;
    } in
    let a1 = Appended-value 0 [] unsigned_short res_login a0 (omega arith) in
    let a2 = Appended-value 2 _ int64 c.account_no a1 (omega arith) in
    let a3 = Appended-value 10 _ unsigned_char is_success a2 (omega arith) in
    let a4 = Appended-data 11 _ c.id 40 a3 id_len (omega arith) in
    let a5 = Appended-data 51 _ c.nickname 40 a4 nick_len (omega arith) in
    let a6 = Appended-data 91 _ server_ip 32 a5 refl (omega arith) in
    let a7 =
      Appended-data 123 _ (le_bytes 2 game_server_port) 2 a6 (length-le_bytes 2 game_server_port)
        (omega arith) in
    let a8 = Appended-data 125 _ server_ip 32 a7 refl (omega arith) in
    let a9 =
      Appended-data 157 _ (le_bytes 2 chat_server_port) 2 a8 (length-le_bytes 2 chat_server_port)
        (omega arith) in
    (a9.valid, a9.bytes ∙ rw empty (simp (append_assoc, append-nil)), a9.count)
