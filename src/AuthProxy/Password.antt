-- ===== src/AuthProxy/Password.antt =====
-- cmd/authproxy/password.go: the password policy. The runes of a password are those of the package
-- argument; lower case is that of ASCII.
use agentry.Base.{
  ℕ, Bool, true, false, not, ◌&&◌, ◌||◌, Option, none, some, List, [], ◌∷◌, if◌then◌else◌, ◌==◌,
  leb, ltb, Text, codes, str_eq, to_lower, length, is_space,
}
use agentry.AuthProxy.Request.{Packages}

abbrev pub min_password_len : ℕ
min_password_len = 8

abbrev pub common_passwords : List Text
common_passwords =
    codes "password"
    ∷ codes "password1"
    ∷ codes "password123"
    ∷ codes "12345678"
    ∷ codes "123456789"
    ∷ codes "1234567890"
    ∷ codes "qwerty123"
    ∷ codes "qwertyuiop"
    ∷ codes "letmein"
    ∷ codes "welcome1"
    ∷ codes "admin123"
    ∷ codes "iloveyou"
    ∷ codes "changeme"
    ∷ codes "passw0rd"
    ∷ codes "1q2w3e4r"
    ∷ codes "abc12345"
    ∷ codes "football"
    ∷ codes "baseball"
    ∷ codes "trustno1"
    ∷ codes "sunshine"
    ∷ []

unfoldable pub is_member : Text → List Text → Bool
is_member s [] = false
is_member s (t ∷ ts) = str_eq s t || is_member s ts

-- `unicode.IsSpace`
unfoldable pub is_space_rune : ℕ → Bool
is_space_rune c =
    is_space c
    || c == 0x85
    || c == 0xA0
    || c == 0x1680
    || (leb 0x2000 c && leb c 0x200A)
    || c == 0x2028
    || c == 0x2029
    || c == 0x202F
    || c == 0x205F
    || c == 0x3000

unfoldable pub all_runes : ℕ → List ℕ → Bool
all_runes first [] = true
all_runes first (r ∷ rs) = r == first && all_runes first rs

unfoldable pub all_same_rune : List ℕ → Bool
all_same_rune [] = false
all_same_rune (first ∷ rs) = all_runes first rs && not (is_space_rune first)

-- The error's text, or nil.
unfoldable pub validate_password : Packages → Text → Option Text
validate_password pk pw =
    if ltb (length pw) min_password_len
    then some (codes "Password must be at least 8 characters.")
    else if is_member (to_lower pw) common_passwords
    then some (codes "That password is too common. Choose something harder to guess.")
    else if all_same_rune (pk.runes pw)
    then some (codes "Password can't be a single repeated character.")
    else none
