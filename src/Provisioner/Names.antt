-- ===== src/Provisioner/Names.antt =====
-- pkg/provisioner/provisioner.go: fresh names for sandboxes, sanitizeSandboxID, randomHexSuffix and
-- allocFreshSandboxID. A byte of a rune beyond ASCII falls under no case, as the rune does.
pub mod Labels
pub mod Fresh
use agentry.Base.{
  ℕ, subst, ok_inj, Option-cases, zero, suc, ◌+◌, ◌%◌, ◌≤◌, ◌<◌, ◌≡◌, ◌⊎◌, refl, Bool, true, false,
  not, ◌&&◌, ◌||◌, Option, none, some, List, [], ◌∷◌, ◌++◌, arith, ltb, leb, ◌==◌, if◌then◌else◌,
  Bool-cases, inl, inr, Text, codes, is_empty, length, replicate, get_elem?, decimal, Result, ok,
  err,
}
use agentry.Provisioner.Volumes.{is_dns1123_label, label_rest, is_alnum}
use agentry.Provisioner.Backend.{Backend, svc_name}

abbrev pub max_name : ℕ
max_name = 40

abbrev pub dash : ℕ
dash = b'-'

-- The byte that a rune gives, a dash for a separator.
abbrev pub keep_rune : ℕ → Option ℕ
keep_rune r =
    if leb b'a' r && leb r b'z' || leb b'0' r && leb r b'9'
    then some r
    else if leb b'A' r && leb r b'Z'
    then some (r + 32)
    else if r == b'-' || (r == b'_' || r == b'.')
    then some dash
    else none

-- The loop, `n` bytes being written and `prev_dash` telling whether the last one is a dash.
unfoldable pub sanitize_from : ℕ → Bool → Text → Text
sanitize_from n prev_dash [] = []
sanitize_from n prev_dash (r ∷ rs) = elim (keep_rune r) [
  | none ↦ sanitize_from n prev_dash rs
  | some c ↦ elim (c == dash && (prev_dash || n == 0)) [
    | true ↦ sanitize_from n prev_dash rs
    | false ↦
        c ∷ elim (leb max_name (n + 1)) [ true ↦ [] | false ↦ sanitize_from (n + 1) (c == dash) rs ]
  ]
]

abbrev pub keep_dash : ℕ → Text → Text
keep_dash c [] = if c == dash then [] else c ∷ []
keep_dash c (d ∷ s) = c ∷ d ∷ s

-- The loop that takes the dashes off the end.
unfoldable pub trim_dashes : Text → Text
trim_dashes [] = []
trim_dashes (c ∷ s) = keep_dash c (trim_dashes s)

unfoldable pub sanitize_sandbox_id : Text → Text
unfolding sanitize_from trim_dashes
sanitize_sandbox_id s = trim_dashes (sanitize_from 0 false s)

abbrev pub hex : Text
hex = codes "0123456789abcdef"

abbrev pub hex_byte : ℕ → ℕ
hex_byte b = elim (get_elem? hex (b % 16)) [ none ↦ 0 | some c ↦ c ]

unfoldable pub hex_bytes : List ℕ → Text
hex_bytes [] = []
hex_bytes (b ∷ bs) = hex_byte b ∷ hex_bytes bs

-- `random` is what crypto/rand fills the buffer with, none being an error; then the bytes are zero.
unfoldable pub random_hex_suffix : Option (List ℕ) → ℕ → Text
unfolding hex_bytes
random_hex_suffix none n = replicate n 0
random_hex_suffix (some buf) n = hex_bytes buf

module _ {World : Type 0} (backend : Backend World) where
  -- A name whose service has no port is free.
  unfoldable pub is_taken : Text → World → Bool
  unfolding svc_name
  is_taken id w = elim (backend.get_node_port (svc_name id) w) [
    | ok port ↦ ltb 0 port
    | err e ↦ false
  ]

-- Eight tries; `random i` is what the i-th read of crypto/rand gives.
module _ {World : Type 0} (backend : Backend World) (random : ℕ → Option (List ℕ)) where
  unfoldable pub try_names : ℕ → ℕ → Text → World → Result Text
  unfolding is_taken random_hex_suffix
  try_names zero i clean w =
      err (codes "could not find a free name after " ++ (decimal i ++ codes " attempts"))
  try_names (suc left) i clean w =
      let candidate = clean ++ (codes "-" ++ random_hex_suffix (random i) 4) in
      let rest = try_names left (i + 1) clean w in
      if is_taken backend candidate w then rest else ok candidate

  unfoldable pub alloc_fresh_sandbox_id : Text → World → Result Text
  unfolding sanitize_sandbox_id try_names
  alloc_fresh_sandbox_id base w =
      let clean = sanitize_sandbox_id base in
      try_names 8 0 (if is_empty clean then codes "sandbox" else clean) w

  try_names-free :
      (left i : ℕ) (clean : Text) (w : World) {id : Text}
      → try_names left i clean w ≡ ok id
      → is_taken backend id w ≡ false
  unfolding try_names
  try_names-free zero i clean w h = cc
  try_names-free (suc left) i clean w {id} h =
      elim (Bool-cases
        (is_taken backend (clean ++ (codes "-" ++ random_hex_suffix (random i) 4)) w)) [
          | inl taken ↦ try_names-free left (i + 1) clean w (ground (arith, taken, h))
          | inr free ↦
              let same : ok (clean ++ (codes "-" ++ random_hex_suffix (random i) 4)) ≡ ok id =
                ground (arith, free, h) in
              subst (λ c. is_taken backend c w ≡ false) (ok_inj same) free
        ]

  -- A name that is given out is free.
  pub alloc_fresh_sandbox_id-free :
      (base : Text) (w : World) {id : Text}
      → alloc_fresh_sandbox_id base w ≡ ok id
      → is_taken backend id w ≡ false
  unfolding alloc_fresh_sandbox_id
  alloc_fresh_sandbox_id-free base w h = try_names-free 8 0 _ w h
