-- ===== src/Prelude/Int.antt =====
-- Signed integers over the native numbers, as wide as needed, and their 16-bit readings.
use Prim.Native.Nat.{ℕ, suc, ◌+◌, ◌-◌, ◌/◌, ◌%◌, ◌^◌, ◌≤◌, ◌<◌}
use mathlib.Core.Path.{◌≡◌}
use mathlib.Core.Bool.{Bool}
use native.Mathlib.Omega.{arith}
use educpu.Prelude.Tests.{ltb, leb, if◌then◌else◌}

-- `negsuc n` is -(n + 1).
pub data ℤ : Type 0 where
  pos : ℕ → ℤ
  negsuc : ℕ → ℤ

abbrev pub pos_part : ℤ → ℕ
pos_part (pos n) = n
pos_part (negsuc n) = 0

abbrev pub neg_part : ℤ → ℕ
neg_part (pos n) = 0
neg_part (negsuc n) = suc n

-- a - b, as an integer.
abbrev pub sub_ℕ : ℕ → ℕ → ℤ
sub_ℕ a b = if leb b a then pos (a - b) else negsuc (b - a - 1)

infixl 65 ◌+ℤ◌ ◌-ℤ◌
infix 50 ◌≤ℤ◌
unfoldable pub ◌+ℤ◌ : ℤ → ℤ → ℤ
a +ℤ b = sub_ℕ (pos_part a + pos_part b) (neg_part a + neg_part b)

unfoldable pub ◌-ℤ◌ : ℤ → ℤ → ℤ
a -ℤ b = sub_ℕ (pos_part a + neg_part b) (neg_part a + pos_part b)

abbrev pub ◌≤ℤ◌ : ℤ → ℤ → Type 0
a ≤ℤ b = pos_part a + neg_part b ≤ pos_part b + neg_part a

abbrev pub ltb_ℤ : ℤ → ℤ → Bool
ltb_ℤ a b = ltb (pos_part a + neg_part b) (pos_part b + neg_part a)

-- The conversions of C: a value kept modulo 2 ^ 16, and the two's complement reading of a word.
unfoldable pub to_u16 : ℤ → ℕ
to_u16 (pos n) = n % 2 ^ 16
to_u16 (negsuc n) = 2 ^ 16 - 1 - n % 2 ^ 16

unfoldable pub to_i16 : ℕ → ℤ
to_i16 w = let v = w % 2 ^ 16 in if ltb v (2 ^ 15) then pos v else negsuc (2 ^ 16 - 1 - v)

-- An arithmetic shift to the right: division that rounds down.
unfoldable pub shr_ℤ : ℤ → ℕ → ℤ
shr_ℤ (pos n) k = pos (n / 2 ^ k)
shr_ℤ (negsuc n) k = negsuc (n / 2 ^ k)

pub to_u16-lt : (z : ℤ) → to_u16 z < 2 ^ 16
unfolding to_u16
to_u16-lt (pos n) = omega arith
to_u16-lt (negsuc n) = omega arith

pub to_u16-to_i16 : (w : ℕ) → to_u16 (to_i16 w) ≡ w % 2 ^ 16
unfolding to_u16 to_i16
to_u16-to_i16 w = ground arith

pub to_i16-to_u16 :
    (z : ℤ) → negsuc (2 ^ 15 - 1) ≤ℤ z → z ≤ℤ pos (2 ^ 15 - 1) → to_i16 (to_u16 z) ≡ z
unfolding to_u16 to_i16
to_i16-to_u16 (pos n) lo hi = ground arith
to_i16-to_u16 (negsuc n) lo hi = ground arith
