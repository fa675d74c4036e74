-- ===== src/NetPacket/Cipher.antt =====
-- The cipher of `Encode` and `Decode` on a sequence of bytes, and the loops over the buffer.
use login_server_chat.Prelude.{
  ℕ, zero, suc, ◌+◌, ◌%◌, ◌<◌, bit_xor, bit_xor_cancel_below, bit_xor-lt, List, [], ◌∷◌, set,
  get_or, write_at, read_at, read_at-set_before, ◌≡◌, refl, ap, ◌∙◌, arith, length,
}
use login_server_chat.NetPacket.{packet_key, encode_loop, decode_loop}

abbrev pub IsBytes : List ℕ → Type 0
IsBytes [] = Unit {0}
IsBytes (x ∷ xs) = (x < 256) × IsBytes xs

-- Each byte is mixed with the random key and the byte before it in one chain, and the result with the
-- fixed key and the byte before it in a second chain.
unfoldable pub encrypt : ℕ → ℕ → ℕ → ℕ → List ℕ → List ℕ
encrypt rand_key cnt rk pk [] = []
encrypt rand_key cnt rk pk (x ∷ xs) =
    let rk' = bit_xor x ((rk + rand_key + cnt) % 256) in
    let pk' = bit_xor rk' ((pk + packet_key + cnt) % 256) in
    pk' ∷ encrypt rand_key (cnt + 1) rk' pk' xs

pub decrypt : ℕ → ℕ → ℕ → ℕ → List ℕ → List ℕ
decrypt rand_key cnt rk pk [] = []
decrypt rand_key cnt rk pk (x ∷ xs) =
    let rk' = bit_xor x ((pk + packet_key + cnt) % 256) in
    bit_xor rk' ((rk + rand_key + cnt) % 256) ∷ decrypt rand_key (cnt + 1) rk' x xs

pub length-encrypt :
    (rand_key cnt rk pk : ℕ) (xs : List ℕ) → length (encrypt rand_key cnt rk pk xs) ≡ length xs
unfolding encrypt
length-encrypt rand_key cnt rk pk [] = refl
length-encrypt rand_key cnt rk pk (x ∷ xs) = ap suc (length-encrypt rand_key (cnt + 1) _ _ xs)

xor_twice : (a b : ℕ) → a < 256 → bit_xor (bit_xor a (b % 256)) (b % 256) ≡ a
xor_twice a b h = bit_xor_cancel_below 8 a (b % 256) h (omega arith)

-- Decrypting undoes encrypting, whatever the keys and the state of the two chains.
pub decrypt-encrypt :
    (rand_key cnt rk pk : ℕ) (xs : List ℕ)
    → IsBytes xs
    → decrypt rand_key cnt rk pk (encrypt rand_key cnt rk pk xs) ≡ xs
unfolding encrypt decrypt
decrypt-encrypt rand_key cnt rk pk [] h = refl
decrypt-encrypt rand_key cnt rk pk (x ∷ xs) h =
    rw
      (
        xor_twice rk' (pk + packet_key + cnt)
            (bit_xor-lt 8 x ((rk + rand_key + cnt) % 256) h.0 (omega arith)),
        xor_twice x (rk + rand_key + cnt) h.0,
      )
      (ap (λ l. x ∷ l) (decrypt-encrypt rand_key (cnt + 1) rk' pk' xs h.1))
  where
    rk' : ℕ
    rk' = bit_xor x ((rk + rand_key + cnt) % 256)

    pk' : ℕ
    pk' = bit_xor rk' ((pk + packet_key + cnt) % 256)

-- The loop of `Encode` replaces the bytes that it runs over by their encryption.
pub encode_loop-encrypt :
    (rand_key left i cnt rk pk : ℕ) (buf : List ℕ)
    → encode_loop rand_key left i cnt rk pk buf
      ≡ write_at buf i (encrypt rand_key cnt rk pk (read_at 0 buf i left))
unfolding encode_loop encrypt write_at read_at
encode_loop-encrypt rand_key zero i cnt rk pk buf = refl
encode_loop-encrypt rand_key (suc left) i cnt rk pk buf =
    encode_loop-encrypt rand_key left (i + 1) (cnt + 1) rk' pk' (set buf i pk')
    ∙ ap (λ l. write_at (set buf i pk') (i + 1) (encrypt rand_key (cnt + 1) rk' pk' l))
        (read_at-set_before 0 buf (i + 1) i left pk' (omega arith))
  where
    rk' : ℕ
    rk' = bit_xor (get_or buf i 0) ((rk + rand_key + cnt) % 256)

    pk' : ℕ
    pk' = bit_xor rk' ((pk + packet_key + cnt) % 256)

-- The loop of `Decode` replaces the bytes that it runs over by their decryption.
pub decode_loop-decrypt :
    (rand_key left i cnt rk pk : ℕ) (buf : List ℕ)
    → decode_loop rand_key left i cnt rk pk buf
      ≡ write_at buf i (decrypt rand_key cnt rk pk (read_at 0 buf i left))
unfolding decode_loop decrypt write_at read_at
decode_loop-decrypt rand_key zero i cnt rk pk buf = refl
decode_loop-decrypt rand_key (suc left) i cnt rk pk buf =
    decode_loop-decrypt rand_key left (i + 1) (cnt + 1) rk' (get_or buf i 0) (set buf i plain)
    ∙ ap
        (λ l.
          write_at (set buf i plain) (i + 1) (decrypt rand_key (cnt + 1) rk' (get_or buf i 0) l))
        (read_at-set_before 0 buf (i + 1) i left plain (omega arith))
  where
    rk' : ℕ
    rk' = bit_xor (get_or buf i 0) ((pk + packet_key + cnt) % 256)

    plain : ℕ
    plain = bit_xor rk' ((rk + rand_key + cnt) % 256)
