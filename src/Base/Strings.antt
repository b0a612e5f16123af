-- ===== src/Base/Strings.antt =====
-- Go strings as lists of bytes, with what the program uses of the package `strings`.
use Prim.Native.Char.{code}
use Prim.Native.String.{String}
use Prim.Native.Nat.{ℕ, ◌+◌, ◌-◌}
use mathlib.Core.Path.{◌≡◌, refl}
use mathlib.Core.Logic.{◌↔◌}
use mathlib.Core.Bool.{Bool, true, false, ◌&&◌, ◌||◌}
use mathlib.Core.List.{List, [], ◌∷◌, ◌++◌}
use native.Mathlib.Omega.{arith}
use agentry.Base.Tests.{leb, ◌==◌, if◌then◌else◌}
use agentry.Base.Lists.{length, drop}

abbrev pub Text : Type 0
Text = List ℕ

-- The bytes of an ASCII literal.
abbrev pub codes : String → Text
codes String.[] = []
codes (String.◌∷◌ c s) = code c ∷ codes s

unfoldable pub str_eq : Text → Text → Bool
str_eq [] [] = true
str_eq [] (b ∷ t) = false
str_eq (a ∷ s) [] = false
str_eq (a ∷ s) (b ∷ t) = a == b && str_eq s t

pub str_eq_refl : (s : Text) → str_eq s s ≡ true
unfolding str_eq
str_eq_refl [] = refl
str_eq_refl (a ∷ s) = ground (arith, str_eq_refl s)

pub eq_of_str_eq : (s t : Text) → str_eq s t ≡ true → s ≡ t
unfolding str_eq
eq_of_str_eq [] [] h = refl
eq_of_str_eq [] (b ∷ t) h = ground arith
eq_of_str_eq (a ∷ s) [] h = ground arith
eq_of_str_eq (a ∷ s) (b ∷ t) h = ground (arith, eq_of_str_eq s t)

pub str_eq_iff : (s t : Text) → (str_eq s t ≡ true) ↔ (s ≡ t)
str_eq_iff s t = (eq_of_str_eq s t, λ e. rw e (str_eq_refl t))

-- `s == ""`
unfoldable pub is_empty : Text → Bool
is_empty [] = true
is_empty (a ∷ s) = false

pub is_empty_iff : (s : Text) → (is_empty s ≡ true) ↔ (s ≡ [])
unfolding is_empty
is_empty_iff [] = (λ e. refl, λ e. refl)
is_empty_iff (a ∷ s) = (λ e. ground arith, λ e. ground arith)

-- `strings.HasPrefix(s, prefix)`
unfoldable pub has_prefix : Text → Text → Bool
has_prefix s [] = true
has_prefix [] (p ∷ ps) = false
has_prefix (a ∷ s) (p ∷ ps) = a == p && has_prefix s ps

pub has_prefix-append : (p s : Text) → has_prefix (p ++ s) p ≡ true
unfolding has_prefix
has_prefix-append [] [] = refl
has_prefix-append [] (a ∷ s) = refl
has_prefix-append (b ∷ p) s = ground (arith, has_prefix-append p s)

-- A text with a prefix is that prefix and the rest.
pub eq-append-drop : (s p : Text) → has_prefix s p ≡ true → s ≡ p ++ drop (length p) s
unfolding has_prefix
eq-append-drop s [] h = refl
eq-append-drop [] (b ∷ p) h = ground arith
eq-append-drop (a ∷ s) (b ∷ p) h = ground (arith, eq-append-drop s p)

-- `strings.Contains(s, string(b))` for one byte
unfoldable pub contains_byte : Text → ℕ → Bool
contains_byte [] b = false
contains_byte (a ∷ s) b = a == b || contains_byte s b

-- `strings.ToLower`, over ASCII: a byte from 128 on is left as it is.
abbrev pub lower_byte : ℕ → ℕ
lower_byte c = if leb b'A' c && leb c b'Z' then c + 32 else c

unfoldable pub to_lower : Text → Text
to_lower [] = []
to_lower (a ∷ s) = lower_byte a ∷ to_lower s

pub to_lower-to_lower : (s : Text) → to_lower (to_lower s) ≡ to_lower s
unfolding to_lower
to_lower-to_lower [] = refl
to_lower-to_lower (a ∷ s) = ground (arith, to_lower-to_lower s)

-- `strings.HasSuffix(s, suffix)`
unfoldable pub has_suffix : Text → Text → Bool
unfolding str_eq
has_suffix s t = leb (length t) (length s) && str_eq (drop (length s - length t) s) t

-- `strings.Contains(s, part)`
unfoldable pub contains_text : Text → Text → Bool
unfolding has_prefix
contains_text [] part = has_prefix [] part
contains_text (a ∷ s) part = has_prefix (a ∷ s) part || contains_text s part

-- `strings.TrimPrefix(s, prefix)`
unfoldable pub trim_prefix : Text → Text → Text
trim_prefix s p = if has_prefix s p then drop (length p) s else s

-- `%q`, over the printable bytes of ASCII
unfoldable pub quoted_bytes : Text → Text
quoted_bytes [] = []
quoted_bytes (c ∷ s) =
    let rest = quoted_bytes s in if c == 34 || c == 92 then 92 ∷ c ∷ rest else c ∷ rest

unfoldable pub quoted : Text → Text
unfolding quoted_bytes
quoted s = 34 ∷ (quoted_bytes s ++ 34 ∷ [])

pub contains_byte-append :
    (s t : Text) (b : ℕ) → contains_byte (s ++ t) b ≡ (contains_byte s b || contains_byte t b)
unfolding contains_byte
contains_byte-append [] t b = refl
contains_byte-append (a ∷ s) t b = ground (arith, contains_byte-append s t b)
