-- ===== src/Provisioner/Volumes/SubPaths.antt =====
-- pkg/provisioner/volumes.go: no sub-path of a checked volume leads out of it.
use agentry.Base.{
  ℕ, suc, ◌-◌, ◌≡◌, refl, sym, subst, ap, ◌∙◌, true, false, none, List, [], ◌∷◌, ◌⊎◌, inl, inr,
  arith, leb, ◌==◌, if◌then◌else◌, Bool-cases, Text, codes, str_eq, has_prefix, has_suffix,
  contains_text, length, drop, split_byte, slash, dots, All, Result,
}
use agentry.Provisioner.Volumes.{Volume, climbs, validate_volumes}
use agentry.Provisioner.Volumes.Checks.{IsMountable, validate_volume-IsMountable}
use agentry.Provisioner.Volumes.Mounts.{Accepts, validate_volumes-Accepts}

-- No segment of the path is `..`.
abbrev pub StaysInside : Text → Type 0
StaysInside p = All (λ q. str_eq q dots ≡ false) (split_byte slash p)

-- The first segment, and those after it.
first_part : Text → Text
first_part [] = []
first_part (a ∷ s) = let rest = first_part s in if a == slash then [] else a ∷ rest

rest_parts : Text → List Text
rest_parts [] = []
rest_parts (a ∷ s) = let rest = rest_parts s in if a == slash then split_byte slash s else rest

split_byte_parts : (s : Text) → split_byte slash s ≡ first_part s ∷ rest_parts s
unfolding split_byte first_part rest_parts
split_byte_parts [] = refl
split_byte_parts (a ∷ s) = elim (Bool-cases (a == slash)) [
  | inl cut ↦ ground (arith, cut)
  | inr other ↦ ground (arith, other, split_byte_parts s)
]

-- A first segment `..` is the whole path or has a slash behind it.
first_part-dots :
    (s : Text)
    → str_eq (first_part s) dots ≡ true
    → (s ≡ dots) ⊎ (has_prefix s (codes "../") ≡ true)
unfolding first_part str_eq has_prefix
first_part-dots [] h = ground (arith, h)
first_part-dots (a ∷ []) h = ground (arith, h)
first_part-dots (a ∷ b ∷ []) h = inl (ground (arith, h))
first_part-dots (a ∷ b ∷ c ∷ s) h = inr (ground (arith, h))

has_suffix-cons : (a : ℕ) (s t : Text) → has_suffix (a ∷ s) t ≡ false → has_suffix s t ≡ false
unfolding has_suffix
has_suffix-cons a s t h = elim (Bool-cases (leb (length t) (length s))) [
  | inr longer ↦ rw longer refl
  | inl fits ↦
      let step : suc (length s) - length t ≡ suc (length s - length t) = ground (arith, fits) in
      let same : str_eq (drop (suc (length s) - length t) (a ∷ s)) t
          ≡ str_eq (drop (length s - length t) s) t =
        ap (λ n. str_eq (drop n (a ∷ s)) t) step in
      ground (arith, fits, h, same)
]

-- Behind a slash there is no segment `..`.
first_is_name :
    (a : ℕ) (s : Text)
    → a ≡ slash
    → has_prefix (a ∷ s) (codes "/../") ≡ false
    → has_suffix (a ∷ s) (codes "/..") ≡ false
    → str_eq (first_part s) dots ≡ false
unfolding has_prefix
first_is_name a s e c h = elim (Bool-cases (str_eq (first_part s) dots)) [
  | inr name ↦ name
  | inl up ↦ elim (first_part-dots s up) [
    | inl whole ↦ cc (ends whole)
    | inr prefix ↦ absurd (ground (arith, prefix, e, c))
  ]
]
  where
    ends : s ≡ dots → false ≡ true
    ends whole =
        sym h
        ∙ ap (λ t. has_suffix t (codes "/..")) (ap (λ b. b ∷ s) e ∙ ap (λ t. slash ∷ t) whole)
        ∙ (unfold has_suffix in refl)

rest_parts-All :
    (s : Text)
    → contains_text s (codes "/../") ≡ false
    → has_suffix s (codes "/..") ≡ false
    → All (λ q. str_eq q dots ≡ false) (rest_parts s)
unfolding rest_parts contains_text
rest_parts-All [] c h = tt
rest_parts-All (a ∷ s) c h =
    let later : All (λ q. str_eq q dots ≡ false) (rest_parts s) =
      rest_parts-All s (ground (arith, c)) (has_suffix-cons a s (codes "/..") h) in
    elim (Bool-cases (a == slash)) [
      | inr other ↦ rw other later
      | inl cut ↦
          rw (cut, split_byte_parts s)
            (first_is_name a s (ground (arith, cut)) (ground (arith, c)) h, later)
    ]

-- A path whose four tests fail has no segment `..`.
climbs-StaysInside : (p : Text) → climbs p ≡ false → StaysInside p
unfolding climbs str_eq
climbs-StaysInside p h = rw (split_byte_parts p) (
  elim (Bool-cases (str_eq (first_part p) dots)) [
    | inr name ↦ name
    | inl up ↦ elim (first_part-dots p up) [
      | inl whole ↦
          let same : str_eq p (codes "..") ≡ true =
            subst (λ q. str_eq q (codes "..") ≡ true) (sym whole) refl in
          absurd (ground (arith, same, h))
      | inr prefix ↦ absurd (ground (arith, prefix, h))
    ]
  ],
  rest_parts-All p (ground (arith, h)) (ground (arith, h)),
)

module _ {Quantity : Type 0} (parse : Text → Result Quantity) where
  Accepts-All :
      (names mounts : List Text) (vs : List Volume)
      → Accepts parse names mounts vs
      → All (λ (v : Volume). IsMountable v × StaysInside v.sub_path) vs
  Accepts-All names mounts [] a = tt
  Accepts-All names mounts (v ∷ vs) a =
      let mountable = (validate_volume-IsMountable parse v a.0).0 in
      (
        (mountable, climbs-StaysInside v.sub_path mountable.contained.stays),
        Accepts-All (v.name ∷ names) (v.mount_path ∷ mounts) vs a.3,
      )

  -- Volumes that pass the checks have names that are DNS labels of at most 63 bytes, mount at
  -- absolute paths in canonical form that are not reserved, and at no sub-path with a segment `..`.
  pub validate_volumes-All :
      (vols : List Volume)
      → validate_volumes parse vols ≡ none
      → All (λ (v : Volume). IsMountable v × StaysInside v.sub_path) vols
  validate_volumes-All vols h = Accepts-All [] [] vols (validate_volumes-Accepts parse vols h)
