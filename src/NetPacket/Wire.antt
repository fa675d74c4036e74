-- ===== src/NetPacket/Wire.antt =====
-- What `Encode` sends and what `Decode` makes of it: the frame of a payload.
use native.Mathlib.Numerals.{add-one}
use login_server_chat.Prelude.{
  ℕ, ◌+◌, ◌-◌, ◌/◌, ◌%◌, ◌^◌, ◌<◌, ◌≤◌, List, ◌∷◌, ◌++◌, length, get_or, write_at, read_at,
  read_at-append, read_at-write_at, read_at-write_at_out, length-write_at, length-read_at,
  get_or-write_at_in, take, ◌≡◌, refl, ap, ap₂, ◌∙◌, sym, arith, true, false, inl, inr, none, some,
}
use login_server_chat.NetPacket.{
  NetPacket, NetHeader, packet_code, header_size, header_bytes, get_payload_size, check_sum,
  encode_loop, encode,
}
use login_server_chat.NetPacket.Cipher.{IsBytes, encrypt, length-encrypt, encode_loop-encrypt}
use login_server_chat.NetPacket.Checksum.{byte_sum, check_sum-byte_sum}

-- The header in the clear, then checksum and payload in cipher.
unfoldable pub frame : ℕ → List ℕ → List ℕ
unfolding encrypt byte_sum
frame rand_key payload =
    packet_code
    ∷ (length payload % 256)
    ∷ (length payload / 256)
    ∷ rand_key
    ∷ encrypt rand_key 1 0 0 ((byte_sum payload % 256) ∷ payload)

pub length-frame :
    (rand_key : ℕ) (payload : List ℕ)
    → length (frame rand_key payload) ≡ header_size + length payload
unfolding frame
length-frame rand_key payload =
    omega (arith, length-encrypt rand_key 1 0 0 ((byte_sum payload % 256) ∷ payload))

-- A copy of as many bytes as are then read.
pub read_back :
    (buf : List ℕ) (i n : ℕ) (xs : List ℕ)
    → length xs ≡ n
    → i + n ≤ length buf
    → read_at 0 (write_at buf i xs) i n ≡ xs
read_back buf i n xs e h =
    ap (read_at 0 (write_at buf i xs) i) (sym e) ∙ read_at-write_at 0 buf i xs (rw e h)

pub read_at_suc :
    (buf : List ℕ) (i n : ℕ) → read_at 0 buf i (n + 1) ≡ get_or buf i 0 ∷ read_at 0 buf (i + 1) n
unfolding read_at
read_at_suc buf i n = rw (add-one n)

-- The buffer with a header, and with the bytes behind it in cipher.
abbrev headed : List ℕ → NetHeader → List ℕ
headed buf h = write_at buf 0 (header_bytes h)

abbrev encoded : List ℕ → ℕ → NetHeader → List ℕ
encoded buf n h = encode_loop h.rand_key (n + 1) 4 1 0 0 (headed buf h)

module _ (buf : List ℕ) (n : ℕ) (h : NetHeader) (fits : header_size + n ≤ length buf) where
  cipher : List ℕ
  cipher = encrypt h.rand_key 1 0 0 (read_at 0 (headed buf h) 4 (n + 1))

  read-headed : read_at 0 (headed buf h) 0 header_size ≡ header_bytes h
  unfolding header_bytes
  read-headed = read_back buf 0 header_size (header_bytes h) refl (omega arith)

  plain_bytes : read_at 0 (headed buf h) 4 (n + 1) ≡ h.chk_sum ∷ read_at 0 buf header_size n
  unfolding header_bytes
  plain_bytes =
      read_at_suc (headed buf h) 4 n
      ∙ ap₂ ◌∷◌ (get_or-write_at_in buf 0 (header_bytes h) 4 0 (omega arith) (omega arith))
          (read_at-write_at_out 0 buf 0 (header_bytes h) header_size n (inr (omega arith)))

  length-cipher : length cipher ≡ n + 1
  unfolding cipher
  length-cipher =
      length-encrypt h.rand_key 1 0 0 (read_at 0 (headed buf h) 4 (n + 1))
      ∙ length-read_at 0 (headed buf h) 4 (n + 1)

  read-encoded :
      read_at 0 (encoded buf n h) 0 (header_size + n)
      ≡ h.code
        ∷ (h.len % 256)
        ∷ (h.len / 256)
        ∷ h.rand_key
        ∷ encrypt h.rand_key 1 0 0 (h.chk_sum ∷ read_at 0 buf header_size n)
  unfolding header_bytes read_at cipher
  read-encoded =
      ap (λ b. read_at 0 b 0 (header_size + n))
        (encode_loop-encrypt h.rand_key (n + 1) 4 1 0 0 (headed buf h))
      ∙ ap (read_at 0 (write_at (headed buf h) 4 cipher) 0) {x = header_size + n} {y = 4 + (n + 1)}
          (omega arith)
      ∙ read_at-append 0 (write_at (headed buf h) 4 cipher) 0 4 (n + 1)
      ∙ ap₂ ◌++◌
          (read_at-write_at_out 0 (headed buf h) 4 cipher 0 4 (inl (omega arith))
            ∙ ap (take 4) read-headed)
          (read_back (headed buf h) 4 (n + 1) cipher length-cipher
              (omega (arith, length-write_at buf 0 (header_bytes h)))
            ∙ ap (encrypt h.rand_key 1 0 0) plain_bytes)

-- The header that `Encode` makes for a payload of `n` bytes.
abbrev made : List ℕ → ℕ → ℕ → NetHeader
made buf rand_key n = record {
  code = packet_code;
  len = n;
  rand_key = rand_key;
  chk_sum = check_sum buf n;
}

encoded-frame :
    (buf : List ℕ) (n rand_key : ℕ)
    → header_size + n ≤ length buf
    → IsBytes (read_at 0 buf header_size n)
    → read_at 0 (encoded buf n (made buf rand_key n)) 0 (header_size + n)
      ≡ frame rand_key (read_at 0 buf header_size n)
unfolding frame
encoded-frame buf n rand_key fits bytes =
    read-encoded buf n (made buf rand_key n) fits
    ∙ rw (length-read_at 0 buf header_size n, check_sum-byte_sum buf n bytes)

-- A packet that has been written and not read, whose bytes lie inside its buffer, and whose payload
-- fits the length field.
pub record IsSendable (p : NetPacket) : Type 0 where
  pub unread : p.read_pos ≡ header_size
  pub written : header_size ≤ p.write_pos
  pub inside : p.write_pos ≤ length p.buffer
  pub short_ : p.write_pos < header_size + 2 ^ 16
  pub bytes : IsBytes (read_at 0 p.buffer header_size (p.write_pos - header_size))

abbrev pub payload : NetPacket → List ℕ
payload p = read_at 0 p.buffer header_size (p.write_pos - header_size)

-- `Encode` of a packet not yet encoded leaves in the buffer, from its start, the frame of the payload.
pub encode-frame :
    {p : NetPacket} (rand : ℕ)
    → IsSendable p
    → p.is_encode ≡ false
    → let p' = (encode rand p).1 in
      (read_at 0 p'.buffer 0 p'.write_pos ≡ frame (rand % 256) (payload p))
      × (p'.write_pos ≡ p.write_pos)
      × (p'.is_encode ≡ true)
unfolding encode
encode-frame {p} rand s fresh = rw fresh (
  ap₂ (λ len w. read_at 0 (encoded p.buffer len (made p.buffer (rand % 256) len)) 0 w) len_eq
        write_eq
      ∙ encoded-frame p.buffer n (rand % 256) (omega (arith, s.inside, s.written)) s.bytes,
  refl,
  refl,
)
  where
    n : ℕ
    n = p.write_pos - header_size

    len_eq : get_payload_size p % 2 ^ 16 ≡ n
    len_eq = omega (arith, s.unread, s.short_, s.written)

    write_eq : p.write_pos ≡ header_size + n
    write_eq = omega (arith, s.written)

-- The first `Encode` of a packet ends without returning a value and marks the packet; any further one
-- returns false and changes nothing, so a packet that is sent to many sessions is encoded once.
pub encode_once :
    (rand again : ℕ) (p : NetPacket)
    → p.is_encode ≡ false
    → let (returned, p') = encode rand p in (returned ≡ none) × (encode again p' ≡ (some false, p'))
unfolding encode
encode_once rand again p fresh = rw fresh (refl, refl)
