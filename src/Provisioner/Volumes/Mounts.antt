-- ===== src/Provisioner/Volumes/Mounts.antt =====
-- pkg/provisioner/volumes.go: what the checked volumes of a sandbox have in common, and that the
-- defaults and the volumes for Kubernetes keep it.
use agentry.Base.{
  ℕ, suc, map, ap, ◌≡◌, refl, true, false, ◌||◌, none, List, [], ◌∷◌, ◌++◌, arith, Bool-cases, inl,
  inr, Text, Result, ok,
}
use agentry.Provisioner.Volumes.Checks.{build_volume_source-ok}
use agentry.Provisioner.Volumes.Build.{VolumeSource, build_from, build_volumes, volume_mount}
use agentry.Provisioner.Volumes.{
  Volume, member, names_of, mounts_of, free_defaults, merge_default_volumes, validate_volume,
  validate_from, validate_volumes, fail_if-none, fail_with-none,
}

module _ {Quantity : Type 0} (parse : Text → Result Quantity) where
  -- Each volume passes its own checks, and no name and no path stands twice or in the two lists.
  abbrev pub Accepts : List Text → List Text → List Volume → Type 0
  Accepts names mounts [] = Unit
  Accepts names mounts (v ∷ vs) =
      (validate_volume parse v ≡ none)
      × (member v.name names ≡ false)
      × (member v.mount_path mounts ≡ false)
      × Accepts (v.name ∷ names) (v.mount_path ∷ mounts) vs

  validate_from-Accepts :
      (i : ℕ) (names mounts : List Text) (vs : List Volume)
      → validate_from parse i names mounts vs ≡ none
      → Accepts names mounts vs
  unfolding validate_from
  validate_from-Accepts i names mounts [] h = tt
  validate_from-Accepts i names mounts (v ∷ vs) h =
      let (fine, h1) = fail_with-none (validate_volume parse v) _ _ h in
      let (name, h2) = fail_if-none (member v.name names) _ _ h1 in
      let (mount, h3) = fail_if-none (member v.mount_path mounts) _ _ h2 in
      (
        fine,
        name,
        mount,
        validate_from-Accepts (suc i) (v.name ∷ names) (v.mount_path ∷ mounts) vs h3,
      )

  validate_from-none :
      (i : ℕ) (names mounts : List Text) (vs : List Volume)
      → Accepts names mounts vs
      → validate_from parse i names mounts vs ≡ none
  unfolding validate_from
  validate_from-none i names mounts [] a = refl
  validate_from-none i names mounts (v ∷ vs) a =
      rw (a.0, a.1, a.2)
        (validate_from-none (suc i) (v.name ∷ names) (v.mount_path ∷ mounts) vs a.3)

  pub validate_volumes-Accepts :
      (vols : List Volume) → validate_volumes parse vols ≡ none → Accepts [] [] vols
  unfolding validate_volumes
  validate_volumes-Accepts vols h = validate_from-Accepts 0 [] [] vols h

  -- The defaults that are left are new beside the request's and among themselves.
  module _ (names mounts : List Text) where
    free_defaults-Accepts :
        (ns ms ns' ms' : List Text) (ds : List Volume)
        → Accepts ns ms ds
        → ((k : Text) → member k ns' ≡ true → (member k names || member k ns) ≡ true)
        → ((k : Text) → member k ms' ≡ true → (member k mounts || member k ms) ≡ true)
        → Accepts ns' ms' (free_defaults names mounts ds)
    unfolding free_defaults member
    free_defaults-Accepts ns ms ns' ms' [] a cn cm = tt
    free_defaults-Accepts ns ms ns' ms' (d ∷ ds) a cn cm =
        let skipped =
          free_defaults-Accepts (d.name ∷ ns) (d.mount_path ∷ ms) ns' ms' ds a.3
            (λ k p. ground (arith, cn k p)) (λ k p. ground (arith, cm k p)) in
        elim (Bool-cases (member d.name names)) [
          | inl taken ↦ rw taken skipped
          | inr new ↦ elim (Bool-cases (member d.mount_path mounts)) [
            | inl taken ↦ rw (new, taken) skipped
            | inr free ↦
                rw (new, free, Accepts)
                  (
                    a.0,
                    ground (arith, cn d.name, new, a.1),
                    ground (arith, cm d.mount_path, free, a.2),
                    free_defaults-Accepts (d.name ∷ ns) (d.mount_path ∷ ms) (d.name ∷ ns')
                        (d.mount_path ∷ ms') ds a.3 (λ k p. ground (arith, cn k, p))
                        (λ k p. ground (arith, cm k, p)),
                  )
          ]
        ]

  -- The volumes of a list, the ones before it being `us`: what counts of the sets is their members.
  Accepts-append :
      (ns ms : List Text) (vs ds : List Volume)
      → Accepts ns ms vs
      → ((ns' ms' : List Text)
          → ((k : Text) → member k ns' ≡ (member k ns || member k (names_of vs)))
          → ((k : Text) → member k ms' ≡ (member k ms || member k (mounts_of vs)))
          → Accepts ns' ms' ds)
      → Accepts ns ms (vs ++ ds)
  unfolding names_of mounts_of member
  Accepts-append ns ms [] ds a rest = rest ns ms (λ k. ground arith) (λ k. ground arith)
  Accepts-append ns ms (v ∷ vs) ds a rest = (
    a.0,
    a.1,
    a.2,
    Accepts-append (v.name ∷ ns) (v.mount_path ∷ ms) vs ds a.3
        (λ ns' ms' en em. rest ns' ms' (λ k. ground (arith, en k)) (λ k. ground (arith, em k))),
  )

  -- Volumes that pass the checks pass them with the defaults of the cluster added, if these pass
  -- them too: a default that takes a name or a path of the request is left out.
  pub validate_volumes-merge_default_volumes :
      (req defaults : List Volume)
      → validate_volumes parse req ≡ none
      → validate_volumes parse defaults ≡ none
      → validate_volumes parse (merge_default_volumes req defaults) ≡ none
  unfolding merge_default_volumes validate_volumes
  validate_volumes-merge_default_volumes req [] h k = h
  validate_volumes-merge_default_volumes req (d ∷ ds) h k =
      validate_from-none 0 [] [] (req ++ free_defaults (names_of req) (mounts_of req) (d ∷ ds)) (
        Accepts-append [] [] req _ (validate_from-Accepts 0 [] [] req h) (λ ns' ms' en em.
          free_defaults-Accepts (names_of req) (mounts_of req) [] [] ns' ms' (d ∷ ds)
            (validate_from-Accepts 0 [] [] (d ∷ ds) k)
            (λ x p. unfold member in ground (arith, en x, p))
            (λ x p. unfold member in ground (arith, em x, p))))

  build_from-ok :
      (i : ℕ) (names mounts : List Text) (vs : List Volume)
      → Accepts names mounts vs
      → (sources : List (Text × VolumeSource Quantity)) × (build_from parse i vs
          ≡ ok (sources, map volume_mount vs))
        × (map (λ (s : Text × VolumeSource Quantity). s.0) sources ≡ names_of vs)
  unfolding build_from names_of
  build_from-ok i names mounts [] a = ([], refl, refl)
  build_from-ok i names mounts (v ∷ vs) a =
      let (source, built) = build_volume_source-ok parse v a.0 in
      let (sources, rest, same) =
        build_from-ok (suc i) (v.name ∷ names) (v.mount_path ∷ mounts) vs a.3 in
      ((v.name, source) ∷ sources, rw (built, rest, build_from) refl, ap (λ ns. v.name ∷ ns) same)

  -- Volumes that pass the checks are built without an error: one volume for each, of its name, and
  -- its mount.
  pub build_volumes-validate_volumes :
      (vols : List Volume)
      → validate_volumes parse vols ≡ none
      → (sources : List (Text × VolumeSource Quantity)) × (build_volumes parse vols
          ≡ ok (sources, map volume_mount vols))
        × (map (λ (s : Text × VolumeSource Quantity). s.0) sources ≡ names_of vols)
  unfolding build_volumes
  build_volumes-validate_volumes vols h =
      build_from-ok 0 [] [] vols (validate_volumes-Accepts vols h)
