-- ===== src/Base/Decimal.antt =====
-- Decimal numerals: `%d` and `strconv.FormatInt` of a number from 0 on, and `strconv.ParseInt`.
use Prim.Native.Nat.{ℕ, zero, suc, ◌+◌, ◌-◌, ◌*◌, ◌/◌, ◌%◌, ◌<◌}
use mathlib.Core.Path.{◌≡◌, refl, ap, ◌∙◌}
use mathlib.Core.Logic.{◌≢◌, inl, inr}
use mathlib.Core.Bool.{Bool, false, ◌&&◌}
use mathlib.Core.Option.{Option, none, some}
use mathlib.Core.List.{[], ◌∷◌, ◌++◌}
use native.Mathlib.Omega.{arith}
use agentry.Base.Tests.{ltb, leb, if◌then◌else◌, Bool-cases}
use agentry.Base.Strings.{Text, contains_byte, contains_byte-append}

-- The fuel is one more than the number, and each round divides it by ten.
unfoldable pub digits : ℕ → ℕ → Text
digits zero n = []
digits (suc fuel) n =
    let front = digits fuel (n / 10) in
    if ltb n 10 then (48 + n) ∷ [] else front ++ (48 + n % 10) ∷ []

unfoldable pub decimal : ℕ → Text
unfolding digits
decimal n = digits (suc n) n

abbrev pub is_digit : ℕ → Bool
is_digit c = leb 48 c && leb c 57

-- Unsigned digits; no numeral of the program carries a sign.
unfoldable pub parse_from : ℕ → Text → Option ℕ
parse_from n [] = some n
parse_from n (c ∷ s) =
    let rest = parse_from (n * 10 + (c - 48)) s in if is_digit c then rest else none

-- `strconv.ParseInt(s, 10, 64)`; out of range is an error as any other.
unfoldable pub parse_decimal : Text → Option ℕ
unfolding parse_from
parse_decimal [] = none
parse_decimal (c ∷ s) = elim (parse_from 0 (c ∷ s)) [
  | none ↦ none
  | some n ↦ if ltb n 0x8000_0000_0000_0000 then some n else none
]

parse_from-append :
    (n m : ℕ) (s : Text) (d : ℕ)
    → parse_from n s ≡ some m
    → d < 10
    → parse_from n (s ++ (48 + d) ∷ []) ≡ some (m * 10 + d)
unfolding parse_from
parse_from-append n m [] d h l = ground arith
parse_from-append n m (c ∷ s) d h l = ground (arith, parse_from-append (n * 10 + (c - 48)) m s d)

parse_from-digits : (fuel n : ℕ) → n < fuel → parse_from 0 (digits fuel n) ≡ some n
unfolding digits
parse_from-digits zero n h = absurd (omega arith)
parse_from-digits (suc fuel) n h = elim (Bool-cases (ltb n 10)) [
  | inl small ↦ rw small (unfold parse_from in ground arith)
  | inr big ↦ rw big (
      parse_from-append 0 (n / 10) (digits fuel (n / 10)) (n % 10)
        (parse_from-digits fuel (n / 10) (ground arith)) (omega arith)
      ∙ ap some (omega arith))
]

append-ne-nil : (s : Text) (c : ℕ) → s ++ c ∷ [] ≢ []
append-ne-nil [] c = λ e. cc
append-ne-nil (b ∷ s) c = λ e. cc

digits-ne-nil : (fuel n : ℕ) → digits (suc fuel) n ≢ []
unfolding digits
digits-ne-nil fuel n = elim (Bool-cases (ltb n 10)) [
  | inl small ↦ rw small (λ e. cc)
  | inr big ↦ rw big (append-ne-nil (digits fuel (n / 10)) (48 + n % 10))
]

parse_decimal-digits :
    (t : Text) (n : ℕ)
    → parse_from 0 t ≡ some n
    → t ≢ []
    → n < 0x8000_0000_0000_0000
    → parse_decimal t ≡ some n
unfolding parse_decimal
parse_decimal-digits [] n h ne l = absurd (ne refl)
parse_decimal-digits (c ∷ t) n h ne l = ground arith

-- What is printed is read back.
pub parse_decimal-decimal : (n : ℕ) → n < 0x8000_0000_0000_0000 → parse_decimal (decimal n) ≡ some n
parse_decimal-decimal n h =
    parse_decimal-digits (decimal n) n (unfold decimal in parse_from-digits (suc n) n (omega arith))
      (unfold decimal in digits-ne-nil n n) h

digits-Without : (b fuel n : ℕ) → is_digit b ≡ false → contains_byte (digits fuel n) b ≡ false
unfolding digits contains_byte
digits-Without b zero n h = refl
digits-Without b (suc fuel) n h = ground (
  arith,
  digits-Without b fuel (n / 10) h,
  contains_byte-append (digits fuel (n / 10)) ((48 + n % 10) ∷ []) b,
)

-- A numeral has digits only.
pub decimal-Without : (b n : ℕ) → is_digit b ≡ false → contains_byte (decimal n) b ≡ false
decimal-Without b n h = unfold decimal in digits-Without b (suc n) n h
