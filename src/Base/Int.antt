-- ===== src/Base/Int.antt =====
-- Go's signed int64: an integer with the wrap-around of two's complement written out.
use Prim.Native.Nat.{ℕ, suc, ◌+◌, ◌-◌, ◌%◌, ◌≤◌, ◌<◌}
use mathlib.Core.Path.{◌≡◌, refl}
use mathlib.Core.Bool.{Bool, false}
use native.Mathlib.Omega.{arith}
use mathlib.Core.List.{◌∷◌}
use agentry.Base.Tests.{ltb, leb, ◌==◌, if◌then◌else◌}
use agentry.Base.Strings.{Text}
use agentry.Base.Decimal.{decimal}

-- `negsuc n` is -(n + 1).
pub data ℤ : Type 0 where
  pos : ℕ → ℤ
  negsuc : ℕ → ℤ

abbrev pub pos_part : ℤ → ℕ
pos_part (pos n) = n
pos_part (negsuc n) = 0

abbrev pub neg_part : ℤ → ℕ
neg_part (pos n) = 0
neg_part (negsuc n) = suc n

abbrev pub sub_ℕ : ℕ → ℕ → ℤ
sub_ℕ a b = if leb b a then pos (a - b) else negsuc (b - a - 1)

abbrev pub ltb_ℤ : ℤ → ℤ → Bool
ltb_ℤ a b = ltb (pos_part a + neg_part b) (pos_part b + neg_part a)

abbrev pub leb_ℤ : ℤ → ℤ → Bool
leb_ℤ a b = leb (pos_part a + neg_part b) (pos_part b + neg_part a)

-- 2 ^ 63 and 2 ^ 64, as numerals that the tactics read.
abbrev pub int64_bound : ℕ
int64_bound = 0x8000_0000_0000_0000

abbrev pub word64 : ℕ
word64 = 0x1_0000_0000_0000_0000

-- The 64 bits of an integer, and the int64 that a bit pattern stands for.
abbrev bits64 : ℤ → ℕ
bits64 (pos n) = n % word64
bits64 (negsuc n) = word64 - 1 - n % word64

abbrev signed64 : ℕ → ℤ
signed64 b = if ltb b int64_bound then pos b else negsuc (word64 - 1 - b)

unfoldable pub wrap64 : ℤ → ℤ
wrap64 z = signed64 (bits64 z)

unfoldable pub add64 : ℤ → ℤ → ℤ
unfolding wrap64
add64 a b = wrap64 (sub_ℕ (pos_part a + pos_part b) (neg_part a + neg_part b))

unfoldable pub sub64 : ℤ → ℤ → ℤ
unfolding wrap64
sub64 a b = wrap64 (sub_ℕ (pos_part a + neg_part b) (neg_part a + pos_part b))

-- No wrap-around below 2 ^ 63.
pub wrap64-pos : (n : ℕ) → n < int64_bound → wrap64 (pos n) ≡ pos n
unfolding wrap64
wrap64-pos n h = ground arith

pub add64-pos : (a b : ℕ) → a + b < int64_bound → add64 (pos a) (pos b) ≡ pos (a + b)
unfolding add64
add64-pos a b h = ground arith

pub sub64-pos : (a b : ℕ) → a < int64_bound → b ≤ a → sub64 (pos a) (pos b) ≡ pos (a - b)
unfolding sub64
sub64-pos a b h k = ground arith

-- The sum of the two largest int64 is -2.
add64_wraps : add64 (pos (int64_bound - 1)) (pos (int64_bound - 1)) ≡ negsuc 1
unfolding add64
add64_wraps = refl

-- `strconv.FormatInt(n, 10)`
unfoldable pub format_int : ℤ → Text
format_int (pos n) = decimal n
format_int (negsuc n) = b'-' ∷ decimal (suc n)

abbrev pub is_zero_ℤ : ℤ → Bool
is_zero_ℤ (pos n) = n == 0
is_zero_ℤ (negsuc n) = false
