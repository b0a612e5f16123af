-- ===== src/Provisioner/Volumes/Checks.antt =====
-- pkg/provisioner/volumes.go: what one volume that passes its checks looks like.
use agentry.Base.{
  ℕ, ◌≤◌, ◌≡◌, refl, Bool, true, false, not, Option, none, some, ◌&&◌, ◌∷◌, [], codes, arith, ltb,
  leb, if◌then◌else◌, Bool-cases, Result-cases, inl, inr, Text, str_eq, eq_of_str_eq, is_empty,
  length, is_abs, clean, Result, ok, err,
}
use agentry.Provisioner.Volumes.Build.{
  VolumeSource, build_volume_source, source_of, build_empty_dir, empty_dir_volume,
  persistent_volume_claim, host_path_volume, config_map_volume, secret_volume,
}
use agentry.Provisioner.Volumes.{
  PvcSource, HostPathSource, ConfigMapSource, SecretSource, EmptyDirSource, Volume,
  is_dns1123_label, is_reserved_mount, climbs, validate_sub_path, validate_volume_source,
  validate_volume, check_empty_dir, check_limit, source_chain, fail_if-none,
}

-- A sub-path that is set is relative and has no `..` at a place that the tests look at.
pub record IsContained (p : Text) : Type 0 where
  pub relative : is_empty p ≡ false → is_abs p ≡ false
  pub stays : climbs p ≡ false

-- The volume's name and path are fit for Kubernetes, and the path is no other name of itself.
pub record IsMountable (v : Volume) : Type 0 where
  pub label : is_dns1123_label v.name ≡ true
  pub short : length v.name ≤ 63
  pub absolute : is_abs v.mount_path ≡ true
  pub canonical : clean v.mount_path ≡ v.mount_path
  pub free : is_reserved_mount v.mount_path ≡ false
  pub contained : IsContained v.sub_path

module _ {Quantity : Type 0} (parse : Text → Result Quantity) where
  validate_sub_path-IsContained :
      (p : Text) (rest : Option Text)
      → validate_sub_path parse p rest ≡ none
      → IsContained p × (rest ≡ none)
  unfolding validate_sub_path climbs is_empty agentry.Base.has_prefix str_eq
      agentry.Base.contains_text agentry.Base.has_suffix
  validate_sub_path-IsContained [] rest h = (record { relative = λ e. cc; stays = refl }, h)
  validate_sub_path-IsContained (a ∷ p) rest h =
      let (relative, h1) = fail_if-none (is_abs (a ∷ p)) _ _ h in
      let (stays, h2) = fail_if-none (climbs (a ∷ p)) _ _ h1 in
      (record { relative = λ e. relative; stays = stays }, h2)

  pub validate_volume-IsMountable :
      (v : Volume)
      → validate_volume parse v ≡ none
      → IsMountable v × (validate_volume_source parse v ≡ none)
  unfolding validate_volume
  validate_volume-IsMountable v h =
      let (named, h1) = fail_if-none (is_empty v.name) _ _ h in
      let (label, h2) = fail_if-none (not (is_dns1123_label v.name)) _ _ h1 in
      let (short, h3) = fail_if-none (ltb 63 (length v.name)) _ _ h2 in
      let (placed, h4) = fail_if-none (is_empty v.mount_path) _ _ h3 in
      let (absolute, h5) = fail_if-none (not (is_abs v.mount_path)) _ _ h4 in
      let (canonical, h6) = fail_if-none (not (str_eq (clean v.mount_path) v.mount_path)) _ _ h5 in
      let (free, h7) = fail_if-none (is_reserved_mount v.mount_path) _ _ h6 in
      let (contained, source) = validate_sub_path-IsContained v.sub_path _ h7 in
      (
        record {
          label = ground (arith, label);
          short = ground (arith, short);
          absolute = ground (arith, absolute);
          canonical = eq_of_str_eq (clean v.mount_path) v.mount_path (ground (arith, canonical));
          free = free;
          contained = contained;
        },
        source,
      )

  build_empty_dir-ok :
      (s : EmptyDirSource) (rest : Option Text)
      → check_empty_dir parse (some s) rest ≡ none
      → (source : VolumeSource Quantity) × (build_empty_dir parse s ≡ ok source)
  build_empty_dir-ok s rest h =
      let (medium, limit) =
        fail_if-none (not (is_empty s.medium) && not (str_eq s.medium (codes "Memory"))) _
          (check_limit parse s.size_limit rest) h in
      elim (Bool-cases (is_empty s.size_limit)) [
        | inl unlimited ↦ (empty_dir_volume s.medium none, rw unlimited refl)
        | inr limited ↦ elim (Result-cases (parse s.size_limit)) [
          | inl (q, parsed) ↦ (empty_dir_volume s.medium (some q), rw (limited, parsed) refl)
          | inr (e, failed) ↦ absurd (ground (arith, limited, failed, limit))
        ]
      ]

  source_of-ok :
      (ro : Bool) (a : Option PvcSource) (b : Option HostPathSource) (c : Option ConfigMapSource)
      (d : Option SecretSource) (e : Option EmptyDirSource)
      → source_chain parse a b c d e ≡ none
      → (source : VolumeSource Quantity) × (source_of parse ro a b c d e ≡ ok source)
  source_of-ok ro (some s) b c d e h = (persistent_volume_claim s.claim_name ro, refl)
  source_of-ok ro none (some s) c d e h = (host_path_volume s.path s.kind, refl)
  source_of-ok ro none none (some s) d e h =
      (config_map_volume s.name s.default_mode s.optional, refl)
  source_of-ok ro none none none (some s) e h =
      (secret_volume s.name s.default_mode s.optional, refl)
  source_of-ok ro none none none none none h = cc
  source_of-ok ro none none none none (some s) h = build_empty_dir-ok s _ h

  pub build_volume_source-ok :
      (v : Volume)
      → validate_volume parse v ≡ none
      → (source : VolumeSource Quantity) × (build_volume_source parse v ≡ ok (v.name, source))
  unfolding build_volume_source validate_volume_source
  build_volume_source-ok v h =
      let (source, built) =
        source_of-ok v.read_only v.pvc v.host_path v.config_map v.secret v.empty_dir
          (validate_volume-IsMountable v h).1 in
      (source, rw built refl)
