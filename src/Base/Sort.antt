-- ===== src/Base/Sort.antt =====
-- `sort.SliceStable`: the order is by the test that the source gives it, and equal elements keep
-- their places.

use mathlib.Core.Path.{◌≡◌, refl}
use mathlib.Core.Logic.{inl, inr}
use mathlib.Core.Bool.{Bool, true, false, ◌||◌}
use mathlib.Core.List.{List, [], ◌∷◌, Perm}
use mathlib.Core.List.Perm
use native.Mathlib.Omega.{arith}
use agentry.Base.Tests.{if◌then◌else◌, Bool-cases}

module _ {ℓ} {A : Type ℓ} (before : A → A → Bool) where
  unfoldable pub insert_sorted : A → List A → List A
  insert_sorted x [] = x ∷ []
  insert_sorted x (y ∷ ys) =
      let rest = insert_sorted x ys in if before y x then y ∷ rest else x ∷ y ∷ ys

  unfoldable pub stable_sort : List A → List A
  unfolding insert_sorted
  stable_sort [] = []
  stable_sort (x ∷ xs) = insert_sorted x (stable_sort xs)

  insert_sorted-perm : (x : A) (ys : List A) → Perm (insert_sorted x ys) (x ∷ ys)
  unfolding insert_sorted
  insert_sorted-perm x [] = Perm.refl (x ∷ [])
  insert_sorted-perm x (y ∷ ys) = elim (Bool-cases (before y x)) [
    | inl sooner ↦ rw sooner (Perm.trans (Perm.cons y (insert_sorted-perm x ys)) (Perm.swap x y ys))
    | inr other ↦ rw other (Perm.refl (x ∷ y ∷ ys))
  ]

  pub stable_sort-perm : (xs : List A) → Perm (stable_sort xs) xs
  unfolding stable_sort
  stable_sort-perm [] = Perm.refl []
  stable_sort-perm (x ∷ xs) =
      Perm.trans (insert_sorted-perm x (stable_sort xs)) (Perm.cons x (stable_sort-perm xs))

  -- The element after `x`, if there is one, need not stand before it.
  abbrev pub Follows : A → List A → Type 0
  Follows x [] = Unit
  Follows x (y ∷ ys) = before y x ≡ false

  abbrev pub IsOrdered : List A → Type 0
  IsOrdered [] = Unit
  IsOrdered (x ∷ xs) = Follows x xs × IsOrdered xs

  module _ (asym : (a b : A) → before a b ≡ true → before b a ≡ false) where
    insert_sorted-Follows :
        (x y : A) (ys : List A) → before x y ≡ false → Follows y ys → Follows y (insert_sorted x ys)
    unfolding insert_sorted
    insert_sorted-Follows x y [] h f = h
    insert_sorted-Follows x y (z ∷ zs) h f = elim (Bool-cases (before z x)) [
      | inl sooner ↦ rw sooner f
      | inr other ↦ rw other h
    ]

    insert_sorted-IsOrdered : (x : A) (ys : List A) → IsOrdered ys → IsOrdered (insert_sorted x ys)
    unfolding insert_sorted
    insert_sorted-IsOrdered x [] o = (tt, tt)
    insert_sorted-IsOrdered x (y ∷ ys) o = elim (Bool-cases (before y x)) [
      | inl sooner ↦
          rw sooner
            (insert_sorted-Follows x y ys (asym y x sooner) o.0, insert_sorted-IsOrdered x ys o.1)
      | inr other ↦ rw other (other, o)
    ]

    pub stable_sort-IsOrdered : (xs : List A) → IsOrdered (stable_sort xs)
    unfolding stable_sort
    stable_sort-IsOrdered [] = tt
    stable_sort-IsOrdered (x ∷ xs) =
        insert_sorted-IsOrdered x (stable_sort xs) (stable_sort-IsOrdered xs)

-- Whether a test holds of some element does not depend on the order.
module _ {ℓ} {A : Type ℓ} where
  unfoldable pub any : (A → Bool) → List A → Bool
  any test [] = false
  any test (x ∷ xs) = test x || any test xs

  any-insert_sorted :
      (before : A → A → Bool) (test : A → Bool) (x : A) (ys : List A)
      → any test (insert_sorted before x ys) ≡ any test (x ∷ ys)
  unfolding any insert_sorted
  any-insert_sorted before test x [] = refl
  any-insert_sorted before test x (y ∷ ys) = ground (arith, any-insert_sorted before test x ys)

  pub any-stable_sort :
      (before : A → A → Bool) (test : A → Bool) (xs : List A)
      → any test (stable_sort before xs) ≡ any test xs
  unfolding any stable_sort
  any-stable_sort before test [] = refl
  any-stable_sort before test (x ∷ xs) = ground (
    arith,
    any-insert_sorted before test x (stable_sort before xs),
    any-stable_sort before test xs,
  )
