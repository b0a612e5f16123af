-- ===== src/Provisioner/Volumes.antt =====
-- pkg/provisioner/volumes.go: the storage that a sandbox mounts, and its checks. A nil pointer is none,
-- and `parse` is ParseQuantity of Kubernetes' package resource.
pub mod Checks
pub mod Build
pub mod Mounts
pub mod SubPaths
use agentry.Base.{
  ℕ, zero, suc, ◌+◌, ◌≤◌, ◌<◌, ◌≡◌, refl, Bool, true, false, not, ◌&&◌, ◌||◌, Option, none, some,
  List, [], ◌∷◌, ◌++◌, ltb, leb, ◌==◌, if◌then◌else◌, Text, codes, is_empty, str_eq, has_prefix,
  has_suffix, contains_text, quoted, decimal, length, is_abs, clean, Result, ok, err, ◌>>=◌,
}
use agentry.Base.Int.{ℤ}

pub record PvcSource : Type 0 where
  pub claim_name : Text

pub record HostPathSource : Type 0 where
  pub path : Text
  pub kind : Text

pub record ConfigMapSource : Type 0 where
  pub name : Text
  pub default_mode : Option ℤ
  pub optional : Option Bool

pub record SecretSource : Type 0 where
  pub name : Text
  pub default_mode : Option ℤ
  pub optional : Option Bool

pub record EmptyDirSource : Type 0 where
  pub medium : Text
  pub size_limit : Text

pub record Volume : Type 0 where
  pub name : Text
  pub mount_path : Text
  pub sub_path : Text
  pub read_only : Bool
  pub pvc : Option PvcSource
  pub host_path : Option HostPathSource
  pub config_map : Option ConfigMapSource
  pub secret : Option SecretSource
  pub empty_dir : Option EmptyDirSource

-- A Go map that serves as a set.
unfoldable pub member : Text → List Text → Bool
member k [] = false
member k (x ∷ xs) = str_eq x k || member k xs

unfoldable pub names_of : List Volume → List Text
names_of [] = []
names_of (v ∷ vs) = v.name ∷ names_of vs

unfoldable pub mounts_of : List Volume → List Text
mounts_of [] = []
mounts_of (v ∷ vs) = v.mount_path ∷ mounts_of vs

-- The loop over the defaults: the two sets are those of the request, and do not grow.
unfoldable pub free_defaults : List Text → List Text → List Volume → List Volume
unfolding member
free_defaults names mounts [] = []
free_defaults names mounts (d ∷ ds) =
    let rest = free_defaults names mounts ds in
    if member d.name names then rest else if member d.mount_path mounts then rest else d ∷ rest

unfoldable pub merge_default_volumes : List Volume → List Volume → List Volume
unfolding free_defaults names_of mounts_of
merge_default_volumes req [] = req
merge_default_volumes req (d ∷ ds) = req ++ free_defaults (names_of req) (mounts_of req) (d ∷ ds)

-- The expression ^[a-z0-9]([-a-z0-9]*[a-z0-9])?$
abbrev pub is_alnum : ℕ → Bool
is_alnum c = leb b'a' c && leb c b'z' || leb b'0' c && leb c b'9'

-- What may follow the first byte: the last one is no dash.
unfoldable pub label_rest : Text → Bool
label_rest [] = true
label_rest (c ∷ []) = is_alnum c
label_rest (c ∷ d ∷ s) = (is_alnum c || c == b'-') && label_rest (d ∷ s)

unfoldable pub is_dns1123_label : Text → Bool
unfolding label_rest
is_dns1123_label [] = false
is_dns1123_label (c ∷ s) = is_alnum c && label_rest s

unfoldable pub is_reserved_mount : Text → Bool
is_reserved_mount p = member p (codes "/" ∷ codes "/proc" ∷ codes "/sys" ∷ codes "/dev" ∷ [])

-- The four tests for a `..` in the sub-path.
unfoldable pub climbs : Text → Bool
climbs p =
    has_prefix p (codes "../")
    || (str_eq p (codes "..") || (contains_text p (codes "/../") || has_suffix p (codes "/..")))

-- `if` with an error, the error being the answer
abbrev pub fail_if : Bool → Text → Option Text → Option Text
fail_if true e rest = some e
fail_if false e rest = rest

-- An error that is handed on, with what comes before it.
abbrev pub fail_with : Option Text → (Text → Text) → Option Text → Option Text
fail_with (some e) wrap rest = some (wrap e)
fail_with none wrap rest = rest

pub fail_if-none :
    (b : Bool) (e : Text) (rest : Option Text)
    → fail_if b e rest ≡ none
    → (b ≡ false) × (rest ≡ none)
fail_if-none true e rest h = cc
fail_if-none false e rest h = (refl, h)

pub fail_with-none :
    (o : Option Text) (wrap : Text → Text) (rest : Option Text)
    → fail_with o wrap rest ≡ none
    → (o ≡ none) × (rest ≡ none)
fail_with-none (some e) wrap rest h = cc
fail_with-none none wrap rest h = (refl, h)

abbrev is_set {ℓ} : {A : Type ℓ} → Option A → ℕ
is_set none = 0
is_set (some a) = 1

abbrev check_pvc : Option PvcSource → Option Text → Option Text
check_pvc none rest = rest
check_pvc (some s) rest = fail_if (is_empty s.claim_name) (codes "pvc.claim_name is required") rest

abbrev check_host_path : Option HostPathSource → Option Text → Option Text
check_host_path none rest = rest
check_host_path (some s) rest = fail_if (is_empty s.path) (codes "host_path.path is required") (
    fail_if (not (is_abs s.path))
      (codes "host_path.path " ++ (quoted s.path ++ codes " must be absolute")) rest)

abbrev check_config_map : Option ConfigMapSource → Option Text → Option Text
check_config_map none rest = rest
check_config_map (some s) rest =
    fail_if (is_empty s.name) (codes "config_map.name is required") rest

abbrev check_secret : Option SecretSource → Option Text → Option Text
check_secret none rest = rest
check_secret (some s) rest = fail_if (is_empty s.name) (codes "secret.name is required") rest

module _ {Quantity : Type 0} (parse : Text → Result Quantity) where
  abbrev pub check_limit : Text → Option Text → Option Text
  check_limit limit rest = if is_empty limit then rest else elim (parse limit) [
    | ok q ↦ rest
    | err e ↦ some (codes "empty_dir.size_limit " ++ (quoted limit ++ (codes ": " ++ e)))
  ]

  abbrev pub check_empty_dir : Option EmptyDirSource → Option Text → Option Text
  check_empty_dir none rest = rest
  check_empty_dir (some s) rest =
      fail_if (not (is_empty s.medium) && not (str_eq s.medium (codes "Memory")))
        (codes "empty_dir.medium " ++ (quoted s.medium ++ codes " must be \"\" or \"Memory\""))
        (check_limit s.size_limit rest)

  -- How many sources are set.
  abbrev pub source_count :
      Option PvcSource
      → Option HostPathSource
      → Option ConfigMapSource
      → Option SecretSource
      → Option EmptyDirSource
      → ℕ
  source_count a b c d e = is_set a + (is_set b + (is_set c + (is_set d + is_set e)))

  abbrev pub source_chain :
      Option PvcSource
      → Option HostPathSource
      → Option ConfigMapSource
      → Option SecretSource
      → Option EmptyDirSource
      → Option Text
  source_chain a b c d e =
      let count = source_count a b c d e in
      check_pvc a (
        check_host_path b (
          check_config_map c (
            check_secret d (
              check_empty_dir e (
                fail_if (count == 0)
                  (codes "a volume source (pvc/host_path/config_map/secret/empty_dir) is required")
                  (fail_if (ltb 1 count)
                    (codes "exactly one volume source must be set (got "
                      ++ (decimal count ++ codes ")"))
                    none))))))

  unfoldable pub validate_volume_source : Volume → Option Text
  validate_volume_source v = source_chain v.pvc v.host_path v.config_map v.secret v.empty_dir

  unfoldable pub validate_sub_path : Text → Option Text → Option Text
  unfolding climbs
  validate_sub_path p rest =
      if is_empty p
      then rest
      else fail_if (is_abs p) (codes "sub_path " ++ (quoted p ++ codes " must be relative")) (
          fail_if (climbs p) (codes "sub_path " ++ (quoted p ++ codes " must not contain '..'"))
            rest)

  unfoldable pub validate_volume : Volume → Option Text
  unfolding validate_volume_source validate_sub_path is_dns1123_label is_reserved_mount
  validate_volume v = fail_if (is_empty v.name) (codes "name is required") (
      fail_if (not (is_dns1123_label v.name))
        (codes "name " ++ (quoted v.name ++ codes " is not a DNS-1123 label"))
        (fail_if (ltb 63 (length v.name))
          (codes "name " ++ (quoted v.name ++ codes " exceeds 63 chars"))
          (fail_if (is_empty v.mount_path) (codes "mount_path is required") (
            fail_if (not (is_abs v.mount_path))
              (codes "mount_path " ++ (quoted v.mount_path ++ codes " must be absolute"))
              (fail_if (not (str_eq (clean v.mount_path) v.mount_path))
                (codes "mount_path "
                  ++ (quoted v.mount_path
                      ++ (codes " is not in canonical form (expected "
                          ++ (quoted (clean v.mount_path) ++ codes ")"))))
                (fail_if (is_reserved_mount v.mount_path)
                  (codes "mount_path " ++ (quoted v.mount_path ++ codes " is reserved"))
                  (validate_sub_path v.sub_path (validate_volume_source v))))))))

  abbrev in_volume : ℕ → Text → Text
  in_volume i e = codes "volumes[" ++ (decimal i ++ (codes "]: " ++ e))

  -- The loop of validateVolumes, with the sets of the names and the paths met before.
  unfoldable pub validate_from : ℕ → List Text → List Text → List Volume → Option Text
  unfolding validate_volume
  validate_from i names mounts [] = none
  validate_from i names mounts (v ∷ vs) =
      let rest = validate_from (suc i) (v.name ∷ names) (v.mount_path ∷ mounts) vs in
      fail_with (validate_volume v) (in_volume i) (
        fail_if (member v.name names) (in_volume i (codes "duplicate name " ++ quoted v.name)) (
          fail_if (member v.mount_path mounts)
            (in_volume i (codes "duplicate mount_path " ++ quoted v.mount_path)) rest))

  unfoldable pub validate_volumes : List Volume → Option Text
  unfolding validate_from
  validate_volumes vols = validate_from 0 [] [] vols
