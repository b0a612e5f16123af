-- ===== src/Base/Paths.antt =====
-- The packages `path` and `path/filepath` on a system whose separator is a slash.
use Prim.Native.Nat.{ℕ}
use mathlib.Core.Bool.{Bool, ◌||◌}
use mathlib.Core.List.{List, [], ◌∷◌, reverse}
use agentry.Base.Tests.{if◌then◌else◌}
use agentry.Base.Strings.{Text, codes, str_eq, is_empty, has_prefix}
use agentry.Base.Split.{split_byte, join}

abbrev pub slash : ℕ
slash = 47

abbrev pub dot : Text
dot = codes "."

abbrev pub dots : Text
dots = codes ".."

-- `path.IsAbs(s)`
unfoldable pub is_abs : Text → Bool
is_abs s = has_prefix s (codes "/")

-- The segments kept so far, the last one first. A rooted path has nothing above its root.
unfoldable pub up : Bool → List Text → List Text
up rooted [] = if rooted then [] else dots ∷ []
up rooted (top ∷ kept) = if str_eq top dots then dots ∷ top ∷ kept else kept

unfoldable pub add_segment : Bool → List Text → Text → List Text
unfolding up
add_segment rooted kept p =
    if is_empty p || str_eq p dot then kept else if str_eq p dots then up rooted kept else p ∷ kept

unfoldable pub add_segments : Bool → List Text → List Text → List Text
unfolding add_segment
add_segments rooted kept [] = kept
add_segments rooted kept (p ∷ ps) = add_segments rooted (add_segment rooted kept p) ps

-- `path.Clean(s)`
unfoldable pub clean : Text → Text
unfolding is_abs add_segments
clean s =
    let kept = add_segments (is_abs s) [] (split_byte slash s) in
    let path = join (codes "/") (reverse kept) in
    if is_abs s then slash ∷ path else if is_empty path then dot else path

-- The last segment that is not empty, or a text for none.
unfoldable pub last_segment : Text → List Text → Text
last_segment found [] = found
last_segment found (p ∷ ps) = last_segment (if is_empty p then found else p) ps

-- `filepath.Base(s)`
unfoldable pub base_name : Text → Text
unfolding last_segment
base_name s = if is_empty s then dot else last_segment (codes "/") (split_byte slash s)
