-- ===== src/Provisioner/Names/Fresh.antt =====
-- pkg/provisioner/provisioner.go: a name that allocFreshSandboxID gives out.
use agentry.Base.{
  ℕ, zero, suc, ◌+◌, ◌%◌, ◌≤◌, ◌<◌, ◌≡◌, ◌⊎◌, refl, true, false, Option, some, List, [], ◌∷◌, ◌++◌,
  arith, if◌then◌else◌, Bool-cases, inl, inr, Text, codes, is_empty, length, length-append,
  get_elem?, All, ok, ok_inj, subst,
}
use agentry.Provisioner.Volumes.{is_dns1123_label, label_rest, is_alnum}
use agentry.Provisioner.Backend.{Backend}
use agentry.Provisioner.Names.{
  max_name, dash, sanitize_sandbox_id, hex, hex_byte, hex_bytes, random_hex_suffix, try_names,
  alloc_fresh_sandbox_id, alloc_fresh_sandbox_id-free, is_taken,
}
use agentry.Provisioner.Names.Labels.{sanitize_sandbox_id-label}

abbrev AllAlnum : Text → Type 0
AllAlnum s = All (λ c. is_alnum c ≡ true) s

get_elem?-All :
    (s : Text) (i : ℕ)
    → AllAlnum s
    → i < length s
    → (c : ℕ) × (get_elem? s i ≡ some c) × (is_alnum c ≡ true)
get_elem?-All [] i a h = absurd (omega arith)
get_elem?-All (c ∷ s) zero a h = (c, refl, a.0)
get_elem?-All (c ∷ s) (suc i) a h = get_elem?-All s i a.1 (omega arith)

hex-AllAlnum : AllAlnum hex
hex-AllAlnum = (
  refl,
  (
    refl,
    (
      refl,
      (
        refl,
        (
          refl,
          (
            refl,
            (refl, (refl, (refl, (refl, (refl, (refl, (refl, (refl, (refl, (refl, tt)))))))))),
          ),
        ),
      ),
    ),
  ),
)

hex_byte-alnum : (b : ℕ) → is_alnum (hex_byte b) ≡ true
hex_byte-alnum b =
    let (c, found, good) = get_elem?-All hex (b % 16) hex-AllAlnum (omega arith) in
    rw (found, hex_byte) good

hex_bytes-AllAlnum : (bs : List ℕ) → AllAlnum (hex_bytes bs)
unfolding hex_bytes
hex_bytes-AllAlnum [] = tt
hex_bytes-AllAlnum (b ∷ bs) = (hex_byte-alnum b, hex_bytes-AllAlnum bs)

length-hex_bytes : (bs : List ℕ) → length (hex_bytes bs) ≡ length bs
unfolding hex_bytes
length-hex_bytes [] = refl
length-hex_bytes (b ∷ bs) = omega (arith, length-hex_bytes bs)

label_rest-AllAlnum : (s : Text) → AllAlnum s → label_rest s ≡ true
unfolding label_rest
label_rest-AllAlnum [] a = refl
label_rest-AllAlnum (c ∷ []) a = a.0
label_rest-AllAlnum (c ∷ d ∷ s) a = ground (arith, a.0, label_rest-AllAlnum (d ∷ s) a.1)

label_rest-append :
    (s : Text) (t : ℕ) (ts : Text)
    → label_rest s ≡ true
    → AllAlnum (t ∷ ts)
    → label_rest (s ++ dash ∷ t ∷ ts) ≡ true
unfolding label_rest
label_rest-append [] t ts h a = label_rest-AllAlnum (t ∷ ts) a
label_rest-append (c ∷ []) t ts h a = ground (arith, h, label_rest-AllAlnum (t ∷ ts) a)
label_rest-append (c ∷ d ∷ s) t ts h a = ground (arith, h, label_rest-append (d ∷ s) t ts)

label-append :
    (s : Text) (ts : Text)
    → is_dns1123_label s ≡ true
    → AllAlnum ts
    → 0 < length ts
    → is_dns1123_label (s ++ dash ∷ ts) ≡ true
unfolding is_dns1123_label
label-append [] ts h a l = cc
label-append (c ∷ s) [] h a l = absurd (omega arith)
label-append (c ∷ s) (t ∷ ts) h a l = ground (arith, h, label_rest-append s t ts)

or_sandbox :
    (s : Text)
    → (s ≡ []) ⊎ (is_dns1123_label s ≡ true)
    → length s ≤ max_name
    → (is_dns1123_label (if is_empty s then codes "sandbox" else s) ≡ true)
      × (length (if is_empty s then codes "sandbox" else s) ≤ max_name)
unfolding is_empty is_dns1123_label label_rest
or_sandbox [] l short = (refl, omega arith)
or_sandbox (c ∷ s) (inl e) short = cc
or_sandbox (c ∷ s) (inr l) short = (l, short)

module _ {World : Type 0} (backend : Backend World) (random : ℕ → Option (List ℕ)) where
  -- crypto/rand fills its buffer of four bytes.
  abbrev pub Fills : Type 0
  Fills = (i : ℕ) → (buf : List ℕ) × (random i ≡ some buf) × (length buf ≡ 4)

  try_names-label :
      (left i : ℕ) (clean : Text) (w : World) {id : Text}
      → Fills
      → is_dns1123_label clean ≡ true
      → try_names backend random left i clean w ≡ ok id
      → (is_dns1123_label id ≡ true) × (length id ≡ length clean + 5)
  unfolding try_names random_hex_suffix
  try_names-label zero i clean w f l h = cc
  try_names-label (suc left) i clean w {id} f l h =
      elim (Bool-cases (is_taken backend candidate w)) [
        | inl taken ↦ try_names-label left (i + 1) clean w f l (ground (arith, taken, h))
        | inr free ↦
            let same : ok candidate ≡ ok id = ground (arith, free, h) in
            let (buf, filled, four) = f i in
            subst (λ c. (is_dns1123_label c ≡ true) × (length c ≡ length clean + 5)) (ok_inj same)
              (rw filled (
                label-append clean (hex_bytes buf) l (hex_bytes-AllAlnum buf)
                    (omega (arith, length-hex_bytes buf, four)),
                omega
                    (arith, length-append clean (dash ∷ hex_bytes buf), length-hex_bytes buf, four),
              ))
      ]
    where
      candidate : Text
      candidate = clean ++ (codes "-" ++ random_hex_suffix (random i) 4)

  -- If crypto/rand works, a name that is given out in place of a taken one is free, is a DNS label,
  -- and has at most 45 bytes, whatever the name that was asked for.
  pub alloc_fresh_sandbox_id-label :
      (base : Text) (w : World) {id : Text}
      → Fills
      → alloc_fresh_sandbox_id backend random base w ≡ ok id
      → (is_taken backend id w ≡ false) × (is_dns1123_label id ≡ true) × (length id ≤ 45)
  unfolding alloc_fresh_sandbox_id
  alloc_fresh_sandbox_id-label base w f h =
      let (label, short) = sanitize_sandbox_id-label base in
      let start = or_sandbox (sanitize_sandbox_id base) label short in
      let named = try_names-label 8 0 _ w f start.0 h in
      (
        alloc_fresh_sandbox_id-free backend random base w h,
        named.0,
        omega (arith, named.1, start.1),
      )
