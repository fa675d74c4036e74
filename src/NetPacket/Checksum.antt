-- ===== src/NetPacket/Checksum.antt =====
-- The checksum over signed `char`s.
use login_server_chat.Prelude.{
  ℕ, zero, suc, ◌+◌, ◌%◌, List, [], ◌∷◌, get_or, read_at, ◌≡◌, ◌∙◌, ap, arith,
}
use login_server_chat.Prelude.Int.{
  ℤ, pos, ◌+ℤ◌, signed8, to_byte, to_byte-lt, to_byte-+ℤ, to_byte-signed8, to_byte-rem_256,
}
use login_server_chat.NetPacket.{header_size, sum_chars, check_sum}
use login_server_chat.NetPacket.Cipher.{IsBytes}

unfoldable pub byte_sum : List ℕ → ℕ
byte_sum [] = 0
byte_sum (x ∷ xs) = x + byte_sum xs

sum_chars-byte_sum :
    (buf : List ℕ) (i left : ℕ) (acc : ℤ)
    → IsBytes (read_at 0 buf i left)
    → to_byte (sum_chars buf i left acc) ≡ (to_byte acc + byte_sum (read_at 0 buf i left)) % 256
unfolding sum_chars byte_sum read_at
sum_chars-byte_sum buf i zero acc h = omega (arith, to_byte-lt acc)
sum_chars-byte_sum buf i (suc left) acc h = omega (
  arith,
  sum_chars-byte_sum buf (i + 1) left (acc +ℤ signed8 (get_or buf i 0)) h.1,
  to_byte-+ℤ acc (signed8 (get_or buf i 0)),
  to_byte-signed8 (get_or buf i 0) h.0,
)

-- Whatever the signs of the `char`s, the checksum of a payload is the sum of its bytes modulo 256.
pub check_sum-byte_sum :
    (buf : List ℕ) (len : ℕ)
    → IsBytes (read_at 0 buf header_size len)
    → check_sum buf len ≡ byte_sum (read_at 0 buf header_size len) % 256
unfolding check_sum to_byte
check_sum-byte_sum buf len h =
    to_byte-rem_256 (sum_chars buf header_size len (pos 0))
    ∙ sum_chars-byte_sum buf header_size len (pos 0) h
    ∙ ap (λ k. k % 256) {x = 0 + byte_sum (read_at 0 buf header_size len)}
        {y = byte_sum (read_at 0 buf header_size len)} (omega arith)
