-- ===== src/Base/Counting.antt =====
-- How often a text stands in a list.
use Prim.Native.Nat.{ℕ, suc, ◌+◌}
use mathlib.Core.Path.{◌≡◌}
use mathlib.Core.List.{List, [], ◌∷◌, ◌++◌}
use native.Mathlib.Omega.{arith}
use agentry.Base.Tests.{if◌then◌else◌}
use agentry.Base.Strings.{Text, str_eq}

unfoldable pub count : Text → List Text → ℕ
count k [] = 0
count k (x ∷ xs) = let rest = count k xs in if str_eq x k then suc rest else rest

pub count-append : (k : Text) (xs ys : List Text) → count k (xs ++ ys) ≡ count k xs + count k ys
unfolding count
count-append k [] ys = omega arith
count-append k (x ∷ xs) ys = ground (arith, count-append k xs ys)
