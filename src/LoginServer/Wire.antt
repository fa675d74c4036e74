-- ===== src/LoginServer/Wire.antt =====
-- The login response across the wire: what `SendPacket` encodes is decoded at the other end.
use login_server_chat.Prelude.{
  ℕ, zero, suc, ◌+◌, ◌-◌, ◌/◌, ◌%◌, ◌^◌, ◌≤◌, List, [], ◌∷◌, ◌++◌, length, length-read_at, read_at,
  ◌≡◌, refl, ap, ◌∙◌, sym, subst, arith, true, false,
}
use login_server_chat.NetPacket.{
  NetPacket, header_size, set_data, packet_alloc, add_ref_count, encode, decode,
}
use login_server_chat.NetPacket.Cipher.{IsBytes}
use login_server_chat.NetPacket.Cursors.{IsValid, unread}
use login_server_chat.NetPacket.RoundTrip.{decode-encode}
use login_server_chat.NetPacket.Values.{shift_in, le_bytes}
use login_server_chat.NetPacket.Wire.{IsSendable, payload, encode-frame}
use login_server_chat.LoginServer.{
  Character, res_login, game_server_port, chat_server_port, login_response, server_ip,
}
use login_server_chat.LoginServer.Response.{response_fields, concat, login_response-bytes}

append-IsBytes : (xs ys : List ℕ) → IsBytes xs → IsBytes ys → IsBytes (xs ++ ys)
append-IsBytes [] ys b b' = b'
append-IsBytes (x ∷ xs) ys b b' = (b.0, append-IsBytes xs ys b.1 b')

le_bytes-IsBytes : (w v : ℕ) → IsBytes (le_bytes w v)
unfolding le_bytes
le_bytes-IsBytes zero v = tt
le_bytes-IsBytes (suc w) v = (omega arith, le_bytes-IsBytes w (v / 256))

addresses : List (List ℕ)
addresses = server_ip ∷ le_bytes 2 game_server_port ∷ server_ip ∷ le_bytes 2 chat_server_port ∷ []

addresses-IsBytes : IsBytes (concat addresses)
unfolding addresses le_bytes
addresses-IsBytes = omega arith

response_fields-IsBytes :
    (c : Character) (is_success : ℕ)
    → IsBytes c.id
    → IsBytes c.nickname
    → IsBytes (concat (response_fields c is_success))
unfolding addresses
response_fields-IsBytes c is_success id_bytes nick_bytes =
    append-IsBytes (le_bytes 2 res_login) _ (le_bytes-IsBytes 2 res_login) (
      append-IsBytes (le_bytes 8 c.account_no) _ (le_bytes-IsBytes 8 c.account_no) (
        append-IsBytes (le_bytes 1 is_success) _ (le_bytes-IsBytes 1 is_success) (
          append-IsBytes c.id _ id_bytes
            (append-IsBytes c.nickname _ nick_bytes addresses-IsBytes))))

pub login_response_keeps :
    (p : NetPacket) (c : Character) (is_success : ℕ)
    → let p' = login_response p c is_success in
      (p'.read_pos ≡ p.read_pos)
      × (p'.is_encode ≡ p.is_encode)
      × (p'.ref_count ≡ (p.ref_count + 1) % 2 ^ 32)
unfolding login_response shift_in set_data packet_alloc add_ref_count
login_response_keeps p c is_success = (refl, refl, refl)

-- A clear packet with room for the response, as the pool hands it out.
pub record IsClear (p : NetPacket) : Type 0 where
  pub valid : IsValid p
  pub read : p.read_pos ≡ header_size
  pub written : p.write_pos ≡ header_size
  pub fresh : p.is_encode ≡ false
  pub room : 164 ≤ p.buffer_size

-- An id and a nickname of 20 wide characters each.
pub record HasNames (c : Character) : Type 0 where
  pub id_size : length c.id ≡ 40
  pub nickname_size : length c.nickname ≡ 40
  pub id_bytes : IsBytes c.id
  pub nickname_bytes : IsBytes c.nickname

-- The response can be encoded: it is whole, and as long as the header and the fields together.
pub record IsResponse (p : NetPacket) (fields : List ℕ) : Type 0 where
  pub sendable : IsSendable p
  pub fresh : p.is_encode ≡ false
  pub size : p.write_pos ≡ 164
  pub wrote : payload p ≡ fields

pub login_response-IsResponse :
    {p : NetPacket} {c : Character} (is_success : ℕ)
    → IsClear p
    → HasNames c
    → IsResponse (login_response p c is_success) (concat (response_fields c is_success))
unfolding read_at
login_response-IsResponse {p} {c} is_success o h =
    let empty : unread p ≡ [] =
      ap (read_at 0 p.buffer p.read_pos) {y = 0} (omega (arith, o.read, o.written)) in
    let r =
      login_response-bytes c is_success o.valid empty (omega (arith, o.written, o.room)) h.id_size
        h.nickname_size in
    let p' = login_response p c is_success in
    let k = login_response_keeps p c is_success in
    let wrote =
      ap (λ i. read_at 0 p'.buffer i (p'.write_pos - i)) {x = header_size} {y = p'.read_pos}
        (sym (k.0 ∙ o.read))
      ∙ r.1 in
    record {
      sendable = record {
        unread = k.0 ∙ o.read;
        written = omega (arith, r.2, o.written);
        inside = omega (arith, r.0.cells, r.0.inside);
        short_ = omega (arith, r.2, o.written);
        bytes =
            subst IsBytes (sym wrote)
              (response_fields-IsBytes c is_success h.id_bytes h.nickname_bytes);
      };
      fresh = k.1 ∙ o.fresh;
      size = omega (arith, r.2, o.written);
      wrote = wrote;
    }

pub add_ref_count-IsResponse :
    {p : NetPacket} {fields : List ℕ} → IsResponse p fields → IsResponse (add_ref_count p) fields
unfolding add_ref_count
add_ref_count-IsResponse i = record {
  sendable = record {
    unread = i.sendable.unread;
    written = i.sendable.written;
    inside = i.sendable.inside;
    short_ = i.sendable.short_;
    bytes = i.sendable.bytes;
  };
  fresh = i.fresh;
  size = i.size;
  wrote = i.wrote;
}

pub encode_size :
    {p : NetPacket} {fields : List ℕ} (rand : ℕ)
    → IsResponse p fields
    → (encode rand p).1.write_pos ≡ 164
encode_size rand i = (encode-frame rand i.sendable i.fresh).1 ∙ i.size

pub decode-IsResponse :
    {p : NetPacket} {fields : List ℕ} (rand : ℕ) (q : NetPacket)
    → IsResponse p fields
    → 164 ≤ length q.buffer
    → (let sent = (encode rand p).1 in
        read_at 0 q.buffer 0 164 ≡ read_at 0 sent.buffer 0 sent.write_pos)
    → let (accepted, q') = decode q in
      (accepted ≡ true) × (read_at 0 q'.buffer header_size 159 ≡ fields)
decode-IsResponse {p} {fields} rand q i fits received =
    let len : length (payload p) ≡ 159 =
      length-read_at 0 p.buffer header_size (p.write_pos - header_size) ∙ omega (arith, i.size) in
    let d =
      decode-encode q rand i.sendable i.fresh (omega (arith, i.size))
        (ap (read_at 0 q.buffer 0) (encode_size rand i) ∙ received) in
    (d.0, ap (read_at 0 (decode q).1.buffer header_size) (sym len) ∙ d.1 ∙ i.wrote)

-- A client whose packet received the bytes of the encoded login response decodes it to the fields
-- that CommonProtocol.h lists, whatever `rand()` gave to the cipher: for a clear packet from the pool
-- with room for the response, and an id and a nickname of 20 wide characters.
pub decode-login_response :
    {p : NetPacket} {c : Character} (is_success rand : ℕ) (q : NetPacket)
    → IsClear p
    → HasNames c
    → 164 ≤ length q.buffer
    → (let sent = (encode rand (login_response p c is_success)).1 in
        read_at 0 q.buffer 0 164 ≡ read_at 0 sent.buffer 0 sent.write_pos)
    → let (accepted, q') = decode q in
      (accepted ≡ true)
      × (read_at 0 q'.buffer header_size 159 ≡ concat (response_fields c is_success))
decode-login_response is_success rand q o h fits received =
    decode-IsResponse rand q (login_response-IsResponse is_success o h) fits received
