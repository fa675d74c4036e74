-- ===== src/Prelude/Int.antt =====
-- Signed integers over the native numbers, under the library's names, and the C conversions that the
-- program makes of them.
use Prim.Native.Nat.{ℕ, suc, ◌+◌, ◌-◌, ◌%◌, ◌<◌}
use mathlib.Core.Path.{◌≡◌}
use native.Mathlib.Omega.{arith}
use login_server_chat.Prelude.Tests.{leb, ltb, if◌then◌else◌}

-- `negsuc n` is -(n + 1).
pub data ℤ : Type 0 where
  pos : ℕ → ℤ
  negsuc : ℕ → ℤ

abbrev pub pos_part : ℤ → ℕ
pos_part (pos n) = n
pos_part (negsuc n) = 0

abbrev pub neg_part : ℤ → ℕ
neg_part (pos n) = 0
neg_part (negsuc n) = suc n

-- a - b, as an integer.
abbrev pub sub_ℕ : ℕ → ℕ → ℤ
sub_ℕ a b = if leb b a then pos (a - b) else negsuc (b - a - 1)

infixl 65 ◌+ℤ◌
unfoldable pub ◌+ℤ◌ : ℤ → ℤ → ℤ
a +ℤ b = sub_ℕ (pos_part a + pos_part b) (neg_part a + neg_part b)

-- The `char` of a byte pattern.
unfoldable pub signed8 : ℕ → ℤ
signed8 b = if ltb b 128 then pos b else negsuc (255 - b)

-- `z % 256`, which has the sign of `z`.
unfoldable pub rem_256 : ℤ → ℤ
rem_256 (pos n) = pos (n % 256)
rem_256 (negsuc n) = sub_ℕ 0 ((n + 1) % 256)

-- The conversion to `BYTE`.
unfoldable pub to_byte : ℤ → ℕ
to_byte (pos n) = n % 256
to_byte (negsuc n) = 255 - n % 256

pub to_byte-lt : (z : ℤ) → to_byte z < 256
unfolding to_byte
to_byte-lt (pos n) = omega arith
to_byte-lt (negsuc n) = omega arith

pub to_byte-rem_256 : (z : ℤ) → to_byte (rem_256 z) ≡ to_byte z
unfolding to_byte rem_256
to_byte-rem_256 (pos n) = omega arith
to_byte-rem_256 (negsuc n) = ground arith

pub to_byte-signed8 : (b : ℕ) → b < 256 → to_byte (signed8 b) ≡ b
unfolding to_byte signed8
to_byte-signed8 b h = ground arith

pub to_byte-+ℤ : (a b : ℤ) → to_byte (a +ℤ b) ≡ (to_byte a + to_byte b) % 256
unfolding to_byte ◌+ℤ◌
to_byte-+ℤ (pos a) (pos b) = ground arith
to_byte-+ℤ (pos a) (negsuc b) = ground arith
to_byte-+ℤ (negsuc a) (pos b) = ground arith
to_byte-+ℤ (negsuc a) (negsuc b) = ground arith
