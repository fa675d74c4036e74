-- ===== src/NetPacket/RoundTrip.antt =====
-- `Encode` and then `Decode`, across the wire.
use native.Mathlib.Nat.{zero-add}
use login_server_chat.Prelude.{
  ℕ, suc, ◌+◌, ◌-◌, ◌*◌, ◌%◌, ◌<◌, ◌≤◌, ◌==◌, ==_iff, List, ◌∷◌, length, drop, get_or, write_at,
  read_at, read_at-append, get_or-read_at, get_or-write_at_out, get_or-write_at_in, length-read_at,
  ◌≡◌, refl, ap, ap₂, ◌∙◌, sym, arith, Bool, true, false, inl, subst,
}
use login_server_chat.NetPacket.{
  NetPacket, header_size, header_of, check_sum, decode_loop, encode, decode,
}
use login_server_chat.NetPacket.Cipher.{
  IsBytes, encrypt, decrypt, decrypt-encrypt, decode_loop-decrypt,
}
use login_server_chat.NetPacket.Checksum.{byte_sum, check_sum-byte_sum}
use login_server_chat.NetPacket.Wire.{frame, read_back, IsSendable, payload, encode-frame}

abbrev decoded : List ℕ → ℕ → ℕ → List ℕ
decoded buf rand_key len = decode_loop rand_key (len + 1) 4 1 0 0 buf

-- The test that `Decode` returns, of the buffer that it leaves.
abbrev passes : List ℕ → Bool
passes buf =
    (header_of (read_at 0 buf 0 header_size)).chk_sum
    == check_sum buf (header_of (read_at 0 buf 0 header_size)).len

module _ (buf : List ℕ) (rand_key : ℕ) (xs : List ℕ) (bytes : IsBytes xs)
    (fits : header_size + length xs ≤ length buf)
    (framed : read_at 0 buf 0 (header_size + length xs) ≡ frame rand_key xs) where
  n : ℕ
  n = length xs

  sum_ : ℕ
  sum_ = byte_sum xs % 256

  plain : List ℕ
  plain = write_at buf 4 (sum_ ∷ xs)

  cell : (j : ℕ) → j < header_size + n → get_or buf j 0 ≡ get_or (frame rand_key xs) j 0
  unfolding n
  cell j lt =
      ap (λ k. get_or buf k 0) (sym (zero-add j))
      ∙ sym (get_or-read_at 0 buf 0 (header_size + n) j lt)
      ∙ ap (λ l. get_or l j 0) framed

  len_eq : get_or buf 1 0 + 256 * get_or buf 2 0 ≡ n
  unfolding frame n
  len_eq = omega (arith, cell 1 (omega arith), cell 2 (omega arith))

  rand_key_eq : get_or buf 3 0 ≡ rand_key
  unfolding frame n
  rand_key_eq = cell 3 (omega arith)

  read_cipher : read_at 0 buf 4 (n + 1) ≡ encrypt rand_key 1 0 0 (sum_ ∷ xs)
  unfolding read_at frame n sum_
  read_cipher = ap (drop 4) (
      sym (read_at-append 0 buf 0 4 (n + 1))
      ∙ ap (read_at 0 buf 0) {x = 4 + (n + 1)} {y = header_size + n} (omega arith)
      ∙ framed)

  decoded-plain : decoded buf rand_key n ≡ plain
  unfolding plain sum_
  decoded-plain =
      decode_loop-decrypt rand_key (n + 1) 4 1 0 0 buf
      ∙ ap (write_at buf 4) (
          ap (decrypt rand_key 1 0 0) read_cipher
          ∙ decrypt-encrypt rand_key 1 0 0 (sum_ ∷ xs) (omega arith, bytes))

  read-plain : read_at 0 plain header_size n ≡ xs
  unfolding plain n read_at
  read-plain = ap (drop 1) (read_back buf 4 (suc (length xs)) (sum_ ∷ xs) refl (omega arith))

  plain_len : get_or plain 1 0 + 256 * get_or plain 2 0 ≡ n
  unfolding plain
  plain_len = omega (
    arith,
    len_eq,
    get_or-write_at_out buf 4 (sum_ ∷ xs) 1 0 (inl (omega arith)),
    get_or-write_at_out buf 4 (sum_ ∷ xs) 2 0 (inl (omega arith)),
  )

  plain-passes : passes plain ≡ true
  unfolding header_of read_at plain sum_ n
  plain-passes = (==_iff _ _).1 (
      get_or-write_at_in buf 4 (sum_ ∷ xs) 0 0 (omega arith) (omega arith)
      ∙ sym (
          ap (check_sum plain) plain_len
          ∙ check_sum-byte_sum plain n (subst IsBytes (sym read-plain) bytes)
          ∙ ap (λ l. byte_sum l % 256) read-plain))

-- `Decode` of a packet whose buffer starts with the frame of a payload accepts it and leaves the
-- payload behind the header, whatever the random key, with the cursors where they were.
pub decode-frame :
    (q : NetPacket) (rand_key : ℕ) (xs : List ℕ)
    → IsBytes xs
    → header_size + length xs ≤ length q.buffer
    → read_at 0 q.buffer 0 (header_size + length xs) ≡ frame rand_key xs
    → let (accepted, q') = decode q in
      (accepted ≡ true)
      × (read_at 0 q'.buffer header_size (length xs) ≡ xs)
      × (q'.read_pos ≡ q.read_pos)
      × (q'.write_pos ≡ q.write_pos)
unfolding decode n plain read_at
decode-frame q rand_key xs bytes fits framed = (
  ap passes buffer_eq ∙ plain-passes q.buffer rand_key xs bytes fits framed,
  ap (λ b. read_at 0 b header_size (length xs)) buffer_eq
      ∙ read-plain q.buffer rand_key xs bytes fits framed,
  refl,
  refl,
)
  where
    buffer_eq : (decode q).1.buffer ≡ plain q.buffer rand_key xs bytes fits framed
    buffer_eq =
        ap₂ (decoded q.buffer) (rand_key_eq q.buffer rand_key xs bytes fits framed)
          (len_eq q.buffer rand_key xs bytes fits framed)
        ∙ decoded-plain q.buffer rand_key xs bytes fits framed

-- What one end encodes the other end decodes: a packet `q` that received the bytes of the encoded
-- packet `p` in the front of its buffer is accepted, and holds the payload that `p` had.
pub decode-encode :
    {p : NetPacket} (q : NetPacket) (rand : ℕ)
    → IsSendable p
    → p.is_encode ≡ false
    → p.write_pos ≤ length q.buffer
    → (let sent = (encode rand p).1 in
        read_at 0 q.buffer 0 sent.write_pos ≡ read_at 0 sent.buffer 0 sent.write_pos)
    → let (accepted, q') = decode q in
      (accepted ≡ true) × (read_at 0 q'.buffer header_size (length (payload p)) ≡ payload p)
decode-encode {p} q rand s fresh fits received = (d.0, d.1)
  where
    e :
        (read_at 0 (encode rand p).1.buffer 0 (encode rand p).1.write_pos
          ≡ frame (rand % 256) (payload p))
        × ((encode rand p).1.write_pos ≡ p.write_pos)
        × ((encode rand p).1.is_encode ≡ true)
    e = encode-frame rand s fresh

    size_eq : header_size + length (payload p) ≡ p.write_pos
    size_eq =
        omega (arith, s.written, length-read_at 0 p.buffer header_size (p.write_pos - header_size))

    d :
        ((decode q).0 ≡ true)
        × (read_at 0 (decode q).1.buffer header_size (length (payload p)) ≡ payload p)
        × ((decode q).1.read_pos ≡ q.read_pos)
        × ((decode q).1.write_pos ≡ q.write_pos)
    d =
        decode-frame q (rand % 256) (payload p) s.bytes (omega (arith, size_eq))
          (ap (read_at 0 q.buffer 0) (size_eq ∙ sym e.1) ∙ received ∙ e.0)
