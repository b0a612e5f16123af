-- ===== src/AuthProxy/Signed.antt =====
-- What the signed values of cmd/authproxy rely on, and the cut of a value at its first dot.
use agentry.Base.{
  valid_utf8, ℕ, ◌≡◌, true, false, Option, none, some, [], ◌∷◌, ◌++◌, arith, if◌then◌else◌, ◌==◌,
  Bool-cases, inl, inr, Text, contains_byte, Option-cases, Bool, ◌&&◌,
}
use agentry.AuthProxy.Request.{Packages, SessionPayload}

-- `strings.SplitN(s, sep, 2)` for one byte: `none` when it gives one part.
unfoldable pub split_once : ℕ → Text → Option (Text × Text)
split_once b [] = none
split_once b (a ∷ s) =
    let rest = split_once b s in
    if a == b
    then some ([], s)
    else elim rest [ none ↦ none | some (before, after) ↦ some (a ∷ before, after) ]

pub split_once-append :
    (b : ℕ) (s t : Text) → contains_byte s b ≡ false → split_once b (s ++ (b ∷ t)) ≡ some (s, t)
unfolding split_once contains_byte
split_once-append b [] t h = ground arith
split_once-append b (a ∷ s) t h =
    let rest : split_once b (s ++ (b ∷ t)) ≡ some (s, t) = split_once-append b s t (ground arith) in
    ground (arith, rest)

pub split_once-inv :
    (b : ℕ) (s before after : Text)
    → split_once b s ≡ some (before, after)
    → s ≡ before ++ (b ∷ after)
unfolding split_once
split_once-inv b [] before after h = ground arith
split_once-inv b (a ∷ s) before after h = elim (Bool-cases (a == b)) [
  | inl at_sep ↦ ground arith
  | inr other ↦ elim (Option-cases (split_once b s)) [
    | inl absent ↦ absurd (ground arith)
    | inr ((first, second), found) ↦ ground (arith, split_once-inv b s first second found)
  ]
]

-- The texts of a payload are UTF-8.
abbrev pub is_utf8 : SessionPayload → Bool
is_utf8 p = valid_utf8 p.uid && valid_utf8 p.email && valid_utf8 p.name && valid_utf8 p.provider

-- The packages do what their documentation says: base64url without padding decodes what it encoded
-- and writes no dot, and JSON reads back a payload whose texts are UTF-8. Other bytes it replaces.
pub record Works (pk : Packages) : Type 0 where
  pub decode-encode : (s : Text) → pk.base64_decode (pk.base64_encode s) ≡ some s
  pub encode_no_dot : (s : Text) → contains_byte (pk.base64_encode s) b'.' ≡ false
  pub unmarshal-marshal :
      (p : SessionPayload) (raw : Text)
      → is_utf8 p ≡ true
      → pk.json_marshal p ≡ some raw
      → pk.json_unmarshal raw ≡ some p
  pub bcrypt_own :
      (password hash : Text)
      → pk.bcrypt_generate password ≡ some hash
      → pk.bcrypt_matches hash password ≡ true
