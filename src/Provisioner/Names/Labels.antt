-- ===== src/Provisioner/Names/Labels.antt =====
-- pkg/provisioner/provisioner.go: the fresh names are labels that Docker and Kubernetes take.
use agentry.Base.{
  ℕ, suc, ◌+◌, ◌≤◌, ◌<◌, ◌≡◌, ◌⊎◌, refl, Bool, true, false, ◌&&◌, ◌||◌, some, [], ◌∷◌, arith, leb,
  ◌==◌, Bool-cases, Option-cases, inl, inr, Text, length,
}
use agentry.Provisioner.Volumes.{is_dns1123_label, label_rest, is_alnum}
use agentry.Provisioner.Names.{
  max_name, dash, keep_rune, sanitize_from, keep_dash, trim_dashes, sanitize_sandbox_id,
}

-- The bytes of a name before its end is trimmed.
IsNamed : Text → Type 0
IsNamed [] = Unit
IsNamed (c ∷ s) = ((is_alnum c || c == dash) ≡ true) × IsNamed s

keep_rune-alnum : (r c : ℕ) → keep_rune r ≡ some c → (is_alnum c || c == dash) ≡ true
keep_rune-alnum r c h = ground (arith, h)

sanitize_from-IsNamed : (n : ℕ) (prev : Bool) (s : Text) → IsNamed (sanitize_from n prev s)
unfolding sanitize_from IsNamed
sanitize_from-IsNamed n prev [] = tt
sanitize_from-IsNamed n prev (r ∷ rs) = elim (Option-cases (keep_rune r)) [
  | inl skipped ↦ rw (skipped, sanitize_from) (sanitize_from-IsNamed n prev rs)
  | inr (c, kept) ↦ elim (Bool-cases (c == dash && (prev || n == 0))) [
    | inl repeated ↦ rw (kept, repeated, sanitize_from) (sanitize_from-IsNamed n prev rs)
    | inr new ↦ elim (Bool-cases (leb max_name (n + 1))) [
      | inl full ↦ rw (kept, new, full, sanitize_from, IsNamed) (keep_rune-alnum r c kept, tt)
      | inr room ↦
          rw (kept, new, room, sanitize_from, IsNamed)
            (keep_rune-alnum r c kept, sanitize_from-IsNamed (n + 1) (c == dash) rs)
    ]
  ]
]

keep_dash-label_rest :
    (c : ℕ) (t : Text)
    → (is_alnum c || c == dash) ≡ true
    → label_rest t ≡ true
    → label_rest (keep_dash c t) ≡ true
unfolding label_rest
keep_dash-label_rest c [] h l = elim (Bool-cases (c == dash)) [
  | inl cut ↦ rw cut refl
  | inr other ↦ rw other (ground (arith, other, h))
]
keep_dash-label_rest c (d ∷ t) h l = ground (arith, h, l)

trim_dashes-label_rest : (s : Text) → IsNamed s → label_rest (trim_dashes s) ≡ true
unfolding trim_dashes IsNamed
trim_dashes-label_rest [] h = unfold label_rest in refl
trim_dashes-label_rest (c ∷ s) h =
    keep_dash-label_rest c (trim_dashes s) h.0 (trim_dashes-label_rest s h.1)

-- The first byte is no dash.
StartsNamed : Text → Type 0
StartsNamed [] = Unit
StartsNamed (c ∷ s) = is_alnum c ≡ true

sanitize_from-StartsNamed : (prev : Bool) (s : Text) → StartsNamed (sanitize_from 0 prev s)
unfolding sanitize_from StartsNamed
sanitize_from-StartsNamed prev [] = tt
sanitize_from-StartsNamed prev (r ∷ rs) = elim (Option-cases (keep_rune r)) [
  | inl skipped ↦ rw (skipped, sanitize_from) (sanitize_from-StartsNamed prev rs)
  | inr (c, kept) ↦ elim (Bool-cases (c == dash && (prev || 0 == 0))) [
    | inl repeated ↦ rw (kept, repeated, sanitize_from) (sanitize_from-StartsNamed prev rs)
    | inr new ↦
        rw (kept, new, sanitize_from, StartsNamed) (ground (arith, keep_rune-alnum r c kept, new))
  ]
]

keep_dash-label :
    (c : ℕ) (t : Text)
    → is_alnum c ≡ true
    → label_rest t ≡ true
    → is_dns1123_label (keep_dash c t) ≡ true
unfolding is_dns1123_label label_rest
keep_dash-label c [] h l = ground (arith, h)
keep_dash-label c (d ∷ t) h l = ground (arith, h, l)

trim_dashes-label :
    (s : Text)
    → IsNamed s
    → StartsNamed s
    → (trim_dashes s ≡ []) ⊎ (is_dns1123_label (trim_dashes s) ≡ true)
unfolding trim_dashes IsNamed StartsNamed
trim_dashes-label [] h f = inl refl
trim_dashes-label (c ∷ s) h f =
    inr (keep_dash-label c (trim_dashes s) f (trim_dashes-label_rest s h.1))

length-sanitize_from :
    (n : ℕ) (prev : Bool) (s : Text) → n < max_name → length (sanitize_from n prev s) + n ≤ max_name
unfolding sanitize_from
length-sanitize_from n prev [] h = omega arith
length-sanitize_from n prev (r ∷ rs) h = elim (Option-cases (keep_rune r)) [
  | inl skipped ↦ rw (skipped, sanitize_from) (length-sanitize_from n prev rs h)
  | inr (c, kept) ↦ elim (Bool-cases (c == dash && (prev || n == 0))) [
    | inl repeated ↦ rw (kept, repeated, sanitize_from) (length-sanitize_from n prev rs h)
    | inr new ↦ elim (Bool-cases (leb max_name (n + 1))) [
      | inl full ↦ rw (kept, new, full, sanitize_from) (omega arith)
      | inr room ↦
          rw (kept, new, room, sanitize_from)
            (let rest : length (sanitize_from (n + 1) (c == dash) rs) + (n + 1) ≤ max_name =
                length-sanitize_from (n + 1) (c == dash) rs (ground (arith, room)) in
              omega (arith, rest))
    ]
  ]
]

length-trim_dashes : (s : Text) → length (trim_dashes s) ≤ length s
unfolding trim_dashes
length-trim_dashes [] = omega arith
length-trim_dashes (c ∷ s) = keep (trim_dashes s) (length-trim_dashes s)
  where
    keep : (t : Text) → length t ≤ length s → length (keep_dash c t) ≤ suc (length s)
    keep [] h = ground arith
    keep (d ∷ t) h = omega arith

-- What is left of any name is empty or a DNS label, and has at most forty bytes.
pub sanitize_sandbox_id-label :
    (s : Text)
    → ((sanitize_sandbox_id s ≡ []) ⊎ (is_dns1123_label (sanitize_sandbox_id s) ≡ true))
      × (length (sanitize_sandbox_id s) ≤ max_name)
unfolding sanitize_sandbox_id
sanitize_sandbox_id-label s =
    let written = sanitize_from 0 false s in
    (
      trim_dashes-label written (sanitize_from-IsNamed 0 false s)
          (sanitize_from-StartsNamed false s),
      omega (arith, length-trim_dashes written, length-sanitize_from 0 false s (omega arith)),
    )
