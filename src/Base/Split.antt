-- ===== src/Base/Split.antt =====
-- More of the package `strings`: cutting texts at a byte, joining them, and trimming white space.
use Prim.Native.Nat.{ℕ, suc}
use mathlib.Core.Path.{◌∙◌, ◌≡◌, refl, ap}
use mathlib.Core.Logic.{inl, inr}
use mathlib.Core.Bool.{Bool, false, ◌&&◌, ◌||◌, not, true}
use mathlib.Core.Option.{Option, none, some}
use mathlib.Core.List.{List, [], ◌∷◌, ◌++◌, map}
use native.Mathlib.Omega.{arith}
use agentry.Base.Tests.{leb, ◌==◌, if◌then◌else◌, Bool-cases}
use agentry.Base.Strings.{Text, contains_byte}

-- `strings.IndexByte`, with none for -1
unfoldable pub index_byte : Text → ℕ → Option ℕ
index_byte [] b = none
index_byte (a ∷ s) b =
    let rest = index_byte s b in
    if a == b then some 0 else elim rest [ none ↦ none | some i ↦ some (suc i) ]

abbrev pub push_head : ℕ → List Text → List Text
push_head c [] = (c ∷ []) ∷ []
push_head c (p ∷ ps) = (c ∷ p) ∷ ps

-- `strings.Split(s, sep)` for a separator of one byte
unfoldable pub split_byte : ℕ → Text → List Text
split_byte b [] = [] ∷ []
split_byte b (a ∷ s) = let rest = split_byte b s in if a == b then [] ∷ rest else push_head a rest

-- `strings.Join`
unfoldable pub join : Text → List Text → Text
join sep [] = []
join sep (p ∷ []) = p
join sep (p ∷ q ∷ ps) = p ++ (sep ++ join sep (q ∷ ps))

-- The white space of ASCII: tab to carriage return, and the space.
abbrev pub is_space : ℕ → Bool
is_space c = c == 32 || leb 9 c && leb c 13

unfoldable pub trim_left : Text → Text
trim_left [] = []
trim_left (a ∷ s) = let rest = trim_left s in if is_space a then rest else a ∷ s

abbrev pub keep_byte : ℕ → Text → Text
keep_byte a [] = if is_space a then [] else a ∷ []
keep_byte a (b ∷ s) = a ∷ b ∷ s

unfoldable pub trim_right : Text → Text
trim_right [] = []
trim_right (a ∷ s) = keep_byte a (trim_right s)

-- `strings.TrimSpace`, over ASCII
unfoldable pub trim_space : Text → Text
unfolding trim_left trim_right
trim_space s = trim_right (trim_left s)

-- A text starts or ends with no white space.
abbrev Starts : Text → Type 0
Starts [] = Unit
Starts (a ∷ s) = is_space a ≡ false

trim_left-Starts : (s : Text) → Starts (trim_left s)
unfolding trim_left
trim_left-Starts [] = tt
trim_left-Starts (a ∷ s) = elim (Bool-cases (is_space a)) [
  | inl space ↦ rw space (trim_left-Starts s)
  | inr other ↦ rw other other
]

trim_left_self : (s : Text) → Starts s → trim_left s ≡ s
unfolding trim_left
trim_left_self [] h = refl
trim_left_self (a ∷ s) h = rw h

trim_right-trim_right : (s : Text) → trim_right (trim_right s) ≡ trim_right s
unfolding trim_right
trim_right-trim_right [] = refl
trim_right-trim_right (a ∷ s) = keep (trim_right s) (trim_right-trim_right s)
  where
    keep : (t : Text) → trim_right t ≡ t → trim_right (keep_byte a t) ≡ keep_byte a t
    keep [] e = elim (Bool-cases (is_space a)) [
      | inl space ↦ rw space
      | inr other ↦ rw other (rw other)
    ]
    keep (b ∷ t) e = rw e

trim_right-Starts : (s : Text) → Starts s → Starts (trim_right s)
unfolding trim_right
trim_right-Starts [] h = tt
trim_right-Starts (a ∷ s) h = keep (trim_right s)
  where
    keep : (t : Text) → Starts (keep_byte a t)
    keep [] = rw h h
    keep (b ∷ t) = h

-- Trimming twice is trimming once.
pub trim_space_idem : (s : Text) → trim_space (trim_space s) ≡ trim_space s
unfolding trim_space
trim_space_idem s =
    rw
      (trim_left_self (trim_right (trim_left s))
        (trim_right-Starts (trim_left s) (trim_left-Starts s)))
      (trim_right-trim_right (trim_left s))

-- The last byte is no white space.
unfoldable pub ends_printed : Text → Bool
ends_printed [] = false
ends_printed (a ∷ []) = not (is_space a)
ends_printed (a ∷ b ∷ s) = ends_printed (b ∷ s)

trim_right_self : (s : Text) → ends_printed s ≡ true → trim_right s ≡ s
unfolding trim_right ends_printed
trim_right_self [] h = refl
trim_right_self (a ∷ []) h = ground (arith, h)
trim_right_self (a ∷ b ∷ s) h = rw (trim_right_self (b ∷ s) h) refl

pub ends_printed-append : (s t : Text) → ends_printed t ≡ true → ends_printed (s ++ t) ≡ true
unfolding ends_printed
ends_printed-append [] t h = h
ends_printed-append (a ∷ []) [] h = cc
ends_printed-append (a ∷ []) (b ∷ t) h = h
ends_printed-append (a ∷ b ∷ s) t h = ends_printed-append (b ∷ s) t h

-- A text that starts and ends with no white space is not changed.
pub trim_space_self :
    (a : ℕ) (s : Text)
    → is_space a ≡ false
    → ends_printed (a ∷ s) ≡ true
    → trim_space (a ∷ s) ≡ a ∷ s
unfolding trim_space
trim_space_self a s starts ends =
    ap trim_right (trim_left_self (a ∷ s) starts) ∙ trim_right_self (a ∷ s) ends

pub trim_space-space : (s : Text) → trim_space (32 ∷ s) ≡ trim_space s
unfolding trim_space
trim_space-space s = refl

-- A text without the byte is one part, and a text up to the byte is the first part.
pub split_byte-append :
    (b : ℕ) (p s : Text)
    → contains_byte p b ≡ false
    → split_byte b (p ++ b ∷ s) ≡ p ∷ split_byte b s
unfolding split_byte contains_byte
split_byte-append b [] s h = ground arith
split_byte-append b (a ∷ p) s h = ground (arith, split_byte-append b p s)

pub split_byte-single : (b : ℕ) (p : Text) → contains_byte p b ≡ false → split_byte b p ≡ p ∷ []
unfolding split_byte contains_byte
split_byte-single b [] h = refl
split_byte-single b (a ∷ p) h = ground (arith, split_byte-single b p)

abbrev pub Without : ℕ → List Text → Type 0
Without b [] = Unit
Without b (p ∷ ps) = (contains_byte p b ≡ false) × Without b ps

Without-push :
    (b a : ℕ) (ps : List Text) → (a == b) ≡ false → Without b ps → Without b (push_head a ps)
unfolding contains_byte
Without-push b a [] h w = (ground arith, tt)
Without-push b a (p ∷ ps) h w = (ground arith, w.1)

-- No part holds the separator.
pub split_byte-Without : (b : ℕ) (s : Text) → Without b (split_byte b s)
unfolding split_byte contains_byte
split_byte-Without b [] = (refl, tt)
split_byte-Without b (a ∷ s) = elim (Bool-cases (a == b)) [
  | inl cut ↦ rw cut (refl, split_byte-Without b s)
  | inr other ↦ rw other (Without-push b a (split_byte b s) other (split_byte-Without b s))
]

trim_left-Without :
    (b : ℕ) (s : Text) → contains_byte s b ≡ false → contains_byte (trim_left s) b ≡ false
unfolding trim_left contains_byte
trim_left-Without b [] h = h
trim_left-Without b (a ∷ s) h = ground (arith, trim_left-Without b s)

trim_right-Without :
    (b : ℕ) (s : Text) → contains_byte s b ≡ false → contains_byte (trim_right s) b ≡ false
unfolding trim_right contains_byte
trim_right-Without b [] h = h
trim_right-Without b (a ∷ s) h = keep (trim_right s) (trim_right-Without b s (ground arith))
  where
    keep : (t : Text) → contains_byte t b ≡ false → contains_byte (keep_byte a t) b ≡ false
    keep [] e = ground arith
    keep (c ∷ t) e = ground arith

pub trim_space-Without :
    (b : ℕ) (s : Text) → contains_byte s b ≡ false → contains_byte (trim_space s) b ≡ false
unfolding trim_space
trim_space-Without b s h = trim_right-Without b (trim_left s) (trim_left-Without b s h)

abbrev pub to_parts : List Text → List Text
to_parts [] = [] ∷ []
to_parts (p ∷ ps) = p ∷ ps

-- A white byte in front of a text changes no part but by white space.
pub map_trim-push :
    (ps : List Text) → map trim_space (push_head 32 ps) ≡ map trim_space (to_parts ps)
map_trim-push [] = unfold trim_space in refl
map_trim-push (p ∷ ps) = ap (λ t. t ∷ map trim_space ps) (trim_space-space p)
