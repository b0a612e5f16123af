-- ===== src/Base/Utf8.antt =====
-- What `unicode/utf8` says of a text.
use agentry.Base.Strings.{Text}
use Prim.Native.Nat.{ℕ, zero, suc}
use mathlib.Core.Bool.{Bool, true, false, ◌&&◌}
use mathlib.Core.List.{[], ◌∷◌}
use agentry.Base.Tests.{ltb, leb, ◌==◌, if◌then◌else◌}

-- UTF-8, as `unicode/utf8` reads it: of the first byte of a rune, whether it may start one, the range
-- of the next byte, and how many bytes follow.
abbrev rune_start : ℕ → Bool × ℕ × ℕ × ℕ
rune_start c =
    if ltb c 128
    then (true, 128, 191, 0)
    else if ltb c 194
    then (false, 128, 191, 0)
    else if ltb c 224
    then (true, 128, 191, 1)
    else if ltb c 240
    then (true, (if c == 224 then 160 else 128), (if c == 237 then 159 else 191), 2)
    else if ltb c 245
    then (true, (if c == 240 then 144 else 128), (if c == 244 then 143 else 191), 3)
    else (false, 128, 191, 0)

unfoldable pub utf8_from : ℕ → ℕ → ℕ → Text → Bool
utf8_from lo hi zero [] = true
utf8_from lo hi (suc n) [] = false
utf8_from lo hi zero (c ∷ s) =
    let (starts, lo2, hi2, n) = rune_start c in starts && utf8_from lo2 hi2 n s
utf8_from lo hi (suc n) (c ∷ s) = leb lo c && leb c hi && utf8_from 128 191 n s

abbrev pub valid_utf8 : Text → Bool
valid_utf8 s = utf8_from 128 191 0 s
