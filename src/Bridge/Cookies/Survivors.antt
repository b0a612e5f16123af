-- ===== src/Bridge/Cookies/Survivors.antt =====
-- The cookies of a filtered header, read by the rule of pkg/bridge/deploy_routes.go.
use agentry.Base.{
  ℕ, ◌≡◌, refl, sym, ap, ◌∙◌, false, Bool, ◌||◌, ◌==◌, str_eq, has_prefix, index_byte, eq_of_str_eq,
  subst, List, [], ◌∷◌, arith, inl, inr, if◌then◌else◌, Bool-cases, Text, codes, is_empty,
  contains_byte, split_byte, join, push_head, trim_space, trim_space_idem, trim_space-Without,
  trim_space-space, split_byte-append, split_byte-single, split_byte-Without, Without, to_parts,
}
use agentry.Bridge.Cookies.{is_clerk_cookie_name, cookie_name, survivors, filter_clerk_cookies}

-- The cookies of a header: the parts between semicolons, trimmed, that are not empty.
unfoldable pub trimmed : List Text → List Text
trimmed [] = []
trimmed (part ∷ parts) =
    let rest = trimmed parts in if is_empty (trim_space part) then rest else trim_space part ∷ rest

unfoldable pub cookies_of : Text → List Text
cookies_of raw = trimmed (split_byte b';' raw)

-- The name of a cookie: the bytes before its first equals sign, or all of it.
unfoldable pub name_of : Text → Text
name_of [] = []
name_of (c ∷ s) = let rest = name_of s in if c == b'=' then [] else c ∷ rest

-- The names that Clerk uses.
abbrev pub of_clerk : Text → Bool
of_clerk name = str_eq name (codes "__session") || has_prefix name (codes "__client_")

-- The cookies with no name of Clerk's, in order.
unfoldable pub without_clerk : List Text → List Text
without_clerk [] = []
without_clerk (p ∷ ps) =
    let rest = without_clerk ps in if of_clerk (name_of p) then rest else p ∷ rest

cookie_name-name_of : (p : Text) → cookie_name p ≡ name_of p
unfolding cookie_name name_of index_byte
cookie_name-name_of [] = refl
cookie_name-name_of (c ∷ s) = ground (arith, cookie_name-name_of s)

is_clerk_cookie_name-of_clerk : (name : Text) → is_clerk_cookie_name name ≡ of_clerk name
unfolding is_clerk_cookie_name
is_clerk_cookie_name-of_clerk name = elim (Bool-cases (str_eq name (codes "__client_uat"))) [
  | inl uat ↦
      subst (λ n. is_clerk_cookie_name n ≡ of_clerk n)
        (sym (eq_of_str_eq name (codes "__client_uat") uat))
        (unfold str_eq in unfold has_prefix in refl)
  | inr other ↦ ground (arith, other)
]

survivors-eq : (parts : List Text) → survivors parts ≡ without_clerk (trimmed parts)
unfolding survivors without_clerk trimmed
survivors-eq [] = refl
survivors-eq (part ∷ parts) = ground (
  arith,
  survivors-eq parts,
  is_clerk_cookie_name-of_clerk (cookie_name (trim_space part)),
  cookie_name-name_of (trim_space part),
)

-- What a cookie in a filtered header looks like.
pub record IsCookie (p : Text) : Type 0 where
  pub trimmed_self : trim_space p ≡ p
  pub not_empty : is_empty p ≡ false
  pub no_separator : contains_byte p b';' ≡ false

abbrev AllCookies : List Text → Type 0
AllCookies [] = Unit
AllCookies (p ∷ ps) = IsCookie p × AllCookies ps

survivors-AllCookies : (parts : List Text) → Without b';' parts → AllCookies (survivors parts)
unfolding survivors
survivors-AllCookies [] w = tt
survivors-AllCookies (part ∷ parts) w = elim (Bool-cases (is_empty (trim_space part))) [
  | inl empty ↦ rw empty (survivors-AllCookies parts w.1)
  | inr some_text ↦ elim (Bool-cases (is_clerk_cookie_name (cookie_name (trim_space part)))) [
    | inl clerk ↦ rw (some_text, clerk) (survivors-AllCookies parts w.1)
    | inr other ↦
        rw (some_text, other)
          (
            record {
              trimmed_self = trim_space_idem part;
              not_empty = some_text;
              no_separator = trim_space-Without b';' part w.0;
            },
            survivors-AllCookies parts w.1,
          )
  ]
]

trimmed-push_space : (ps : List Text) → trimmed (push_head 32 (to_parts ps)) ≡ trimmed (to_parts ps)
unfolding trimmed
trimmed-push_space [] = ground (arith, trim_space-space [])
trimmed-push_space (p ∷ ps) = ground (arith, trim_space-space p)

to_parts-push : (a : ℕ) (ps : List Text) → to_parts (push_head a ps) ≡ push_head a ps
to_parts-push a [] = refl
to_parts-push a (p ∷ ps) = refl

to_parts-split : (s : Text) → to_parts (split_byte b';' s) ≡ split_byte b';' s
unfolding split_byte
to_parts-split [] = refl
to_parts-split (a ∷ s) = ground (arith, to_parts-push a (split_byte b';' s))

-- The space that `Join` puts behind a semicolon is trimmed again.
trimmed-split_space : (s : Text) → trimmed (split_byte b';' (32 ∷ s)) ≡ trimmed (split_byte b';' s)
unfolding split_byte
trimmed-split_space s =
    ap (λ ps. trimmed (push_head 32 ps)) (sym (to_parts-split s))
    ∙ trimmed-push_space (split_byte b';' s)
    ∙ ap trimmed (to_parts-split s)

trimmed-cons : (p : Text) (ps : List Text) → IsCookie p → trimmed (p ∷ ps) ≡ p ∷ trimmed ps
unfolding trimmed
trimmed-cons p ps c = rw (c.trimmed_self, c.not_empty)

trimmed-split-join :
    (ps : List Text) → AllCookies ps → trimmed (split_byte b';' (join (codes "; ") ps)) ≡ ps
unfolding join
trimmed-split-join [] h = unfold split_byte trimmed trim_space is_empty in refl
trimmed-split-join (p ∷ []) h =
    rw (split_byte-single b';' p h.0.no_separator) (trimmed-cons p [] h.0 ∙ unfold trimmed in refl)
trimmed-split-join (p ∷ q ∷ ps) h =
    let back = join (codes "; ") (q ∷ ps) in
    rw (split_byte-append b';' p (32 ∷ back) h.0.no_separator) (
      trimmed-cons p (split_byte b';' (32 ∷ back)) h.0
      ∙ ap (λ l. p ∷ l) (trimmed-split_space back ∙ trimmed-split-join (q ∷ ps) h.1))

-- The cookies of the filtered header are those of the header whose name is neither __session nor
-- begins with __client_, unchanged and in the same order; an entry without an equals sign counts as a cookie with that name, and is
-- kept as one.
pub cookies_of-filter :
    (raw : Text) → cookies_of (filter_clerk_cookies raw) ≡ without_clerk (cookies_of raw)
unfolding cookies_of filter_clerk_cookies is_empty
cookies_of-filter [] = unfold split_byte trimmed trim_space without_clerk in refl
cookies_of-filter (a ∷ raw) =
    let parts = split_byte b';' (a ∷ raw) in
    trimmed-split-join (survivors parts)
      (survivors-AllCookies parts (split_byte-Without b';' (a ∷ raw)))
    ∙ survivors-eq parts
