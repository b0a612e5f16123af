-- ===== src/Base/Maps.antt =====
-- Go's map with string keys, as an association list. The order in which Go ranges over a map is
-- not specified, and no operation of the program depends on it.
use mathlib.Core.Path.{◌≡◌, subst₂}
use mathlib.Core.Logic.{inl, inr}
use mathlib.Core.Bool.{Bool, true, false}
use mathlib.Core.Option.{Option, none, some}
use mathlib.Core.List.{List, [], ◌∷◌}
use native.Mathlib.Omega.{arith}
use agentry.Base.Tests.{Bool-cases, if◌then◌else◌}
use agentry.Base.Strings.{Text, str_eq, eq_of_str_eq, str_eq_iff}

abbrev pub Map {ℓ} : Type ℓ → Type ℓ
Map V = List (Text × V)

module _ {ℓ} {V : Type ℓ} where
  -- m[k]
  unfoldable pub lookup : Text → Map V → Option V
  lookup k [] = none
  lookup k ((j, v) ∷ m) = if str_eq j k then some v else lookup k m

  -- delete(m, k)
  unfoldable pub delete : Text → Map V → Map V
  delete k [] = []
  delete k ((j, v) ∷ m) = let rest = delete k m in if str_eq j k then rest else (j, v) ∷ rest

  -- m[k] = v
  unfoldable pub insert : Text → V → Map V → Map V
  insert k v m = (k, v) ∷ delete k m

  pub lookup-delete :
      (k j : Text) (m : Map V) → lookup j (delete k m) ≡ (if str_eq k j then none else lookup j m)
  unfolding lookup delete
  lookup-delete k j [] = ground arith
  lookup-delete k j ((i, v) ∷ m) =
      ground (arith, lookup-delete k j m, str_eq_iff i k, str_eq_iff i j, str_eq_iff k j)

  pub lookup-insert :
      (k j : Text) (v : V) (m : Map V)
      → lookup j (insert k v m) ≡ (if str_eq k j then some v else lookup j m)
  unfolding lookup insert
  lookup-insert k j v m = ground (arith, lookup-delete k j m)

module _ {ℓ κ} {V : Type ℓ} (P : Text → V → Type κ) where
  -- `P` holds of every entry.
  abbrev pub AllEntries : Map V → Type κ
  AllEntries [] = Unit
  AllEntries ((k, v) ∷ m) = P k v × AllEntries m

  pub AllEntries-delete : (k : Text) (m : Map V) → AllEntries m → AllEntries (delete k m)
  unfolding delete
  AllEntries-delete k [] h = tt
  AllEntries-delete k ((j, v) ∷ m) h = keep (str_eq j k) (AllEntries-delete k m h.1)
    where
      keep :
          (b : Bool)
          → AllEntries (delete k m)
          → AllEntries (if b then delete k m else (j, v) ∷ delete k m)
      keep true rest = rest
      keep false rest = (h.0, rest)

  pub AllEntries-insert :
      (k : Text) (v : V) (m : Map V) → P k v → AllEntries m → AllEntries (insert k v m)
  unfolding insert
  AllEntries-insert k v m p h = (p, AllEntries-delete k m h)

  pub AllEntries-lookup :
      (k : Text) (m : Map V) {v : V} → AllEntries m → lookup k m ≡ some v → P k v
  unfolding lookup
  AllEntries-lookup k [] h e = cc
  AllEntries-lookup k ((j, w) ∷ m) {v} h e = elim (Bool-cases (str_eq j k)) [
    | inl same ↦ let here : w ≡ v = ground arith in subst₂ P (eq_of_str_eq j k same) here h.0
    | inr other ↦ let there : lookup k m ≡ some v = ground arith in AllEntries-lookup k m h.1 there
  ]

pub ruleset map_laws = (lookup-insert, lookup-delete)
