-- ===== src/Shell/Ring/Copy.antt =====
-- Go's `copy(dst[off:], src)`, which stops at the end of the shorter slice.
use agentry.Base.{
  ℕ, zero, suc, ◌+◌, ◌-◌, ◌≤◌, ◌≡◌, refl, ap, ◌&&◌, List, [], ◌∷◌, ltb, leb, if◌then◌else◌, length,
  get_elem?, arith,
}

unfoldable pub copy_at : List ℕ → ℕ → List ℕ → List ℕ
copy_at [] off src = []
copy_at (d ∷ dst) zero [] = d ∷ dst
copy_at (d ∷ dst) zero (s ∷ src) = s ∷ copy_at dst zero src
copy_at (d ∷ dst) (suc off) src = d ∷ copy_at dst off src

pub length-copy_at :
    (dst : List ℕ) (off : ℕ) (src : List ℕ) → length (copy_at dst off src) ≡ length dst
unfolding copy_at
length-copy_at [] off src = refl
length-copy_at (d ∷ dst) zero [] = refl
length-copy_at (d ∷ dst) zero (s ∷ src) = ap suc (length-copy_at dst zero src)
length-copy_at (d ∷ dst) (suc off) src = ap suc (length-copy_at dst off src)

-- A cell in the copied range holds the source's byte, any other keeps its own.
pub get_elem?-copy_at :
    (dst : List ℕ) (off : ℕ) (src : List ℕ) (j : ℕ)
    → off + length src ≤ length dst
    → get_elem? (copy_at dst off src) j
      ≡ (if leb off j && ltb j (off + length src) then get_elem? src (j - off) else get_elem? dst j)
unfolding copy_at
get_elem?-copy_at [] zero [] j h = ground arith
get_elem?-copy_at [] zero (s ∷ src) j h = absurd (omega arith)
get_elem?-copy_at [] (suc off) src j h = absurd (omega arith)
get_elem?-copy_at (d ∷ dst) zero [] j h = ground arith
get_elem?-copy_at (d ∷ dst) zero (s ∷ src) zero h = ground arith
get_elem?-copy_at (d ∷ dst) zero (s ∷ src) (suc j) h =
    ground (arith, get_elem?-copy_at dst zero src j)
get_elem?-copy_at (d ∷ dst) (suc off) src zero h = ground arith
get_elem?-copy_at (d ∷ dst) (suc off) src (suc j) h =
    ground (arith, get_elem?-copy_at dst off src j)
