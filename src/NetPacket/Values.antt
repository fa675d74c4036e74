-- ===== src/NetPacket/Values.antt =====
-- `operator<<` and `operator>>`: values of the C types as bytes in a packet, the low byte first.
pub mod Stream
mod Tests
use login_server_chat.Prelude.{
  ℕ, zero, suc, ◌+◌, ◌*◌, ◌/◌, ◌%◌, ◌^◌, Bool, true, false, List, [], ◌∷◌, ◌++◌, drop,
  if◌then◌else◌,
}
use login_server_chat.NetPacket.{NetPacket, get_data, set_data}

-- The types that the operators are overloaded for.
pub data ValueType : Type 0 where
  char_ unsigned_char : ValueType
  short_ unsigned_short : ValueType
  int_ unsigned_int : ValueType
  long_ unsigned_long : ValueType
  int64 unsigned_int64 : ValueType
  float_ double_ : ValueType

-- `sizeof` on Windows, where a `long` has four bytes.
unfoldable pub size_of : ValueType → ℕ
size_of char_ = 1
size_of unsigned_char = 1
size_of short_ = 2
size_of unsigned_short = 2
size_of int_ = 4
size_of unsigned_int = 4
size_of long_ = 4
size_of unsigned_long = 4
size_of int64 = 8
size_of unsigned_int64 = 8
size_of float_ = 4
size_of double_ = 8

-- The memory of a value, a bit pattern, and the value of a memory.
unfoldable pub le_bytes : ℕ → ℕ → List ℕ
le_bytes zero v = []
le_bytes (suc w) v = (v % 256) ∷ le_bytes w (v / 256)

unfoldable pub of_le_bytes : List ℕ → ℕ
of_le_bytes [] = 0
of_le_bytes (x ∷ xs) = x + 256 * of_le_bytes xs

-- `operator>>` takes its argument by reference, but the one for `long` takes it by value.
unfoldable pub takes_reference : ValueType → Bool
takes_reference long_ = false
takes_reference _ = true

-- `*this << val`.
unfoldable pub shift_in : NetPacket → ValueType → ℕ → NetPacket
unfolding size_of le_bytes
shift_in p t val = (set_data p (le_bytes (size_of t) val) (size_of t)).1

-- `*this >> val`: the caller's variable, which held `old`, and the packet. The bytes that `GetData`
-- hands out are copied over the front of the variable's memory.
unfoldable pub shift_out : NetPacket → ValueType → ℕ → ℕ × NetPacket
unfolding size_of le_bytes of_le_bytes takes_reference
shift_out p t old =
    let (out, n, p') = get_data p (size_of t) in
    (
      (if takes_reference t then of_le_bytes (out ++ drop n (le_bytes (size_of t) old)) else old),
      p',
    )
