-- ===== src/Provisioner/Volumes/Build.antt =====
-- pkg/provisioner/volumes.go: buildVolumes, the volumes for Kubernetes. A volume of Kubernetes is its
-- name and the source that is set.
use agentry.Base.{
  ℕ, suc, Bool, Option, none, some, List, [], ◌∷◌, ◌++◌, if◌then◌else◌, Text, codes, is_empty,
  decimal, Result, ok, err, ◌>>=◌,
}
use agentry.Base.Int.{ℤ}
use agentry.Provisioner.Volumes.{
  PvcSource, HostPathSource, ConfigMapSource, SecretSource, EmptyDirSource, Volume,
}

-- corev1.VolumeSource, with the fields that are set.
pub data VolumeSource (Quantity : Type 0) : Type 0 where
  persistent_volume_claim : Text → Bool → VolumeSource Quantity
  host_path_volume : Text → Text → VolumeSource Quantity
  config_map_volume : Text → Option ℤ → Option Bool → VolumeSource Quantity
  secret_volume : Text → Option ℤ → Option Bool → VolumeSource Quantity
  empty_dir_volume : Text → Option Quantity → VolumeSource Quantity

-- corev1.VolumeMount
pub record VolumeMount : Type 0 where
  pub name : Text
  pub mount_path : Text
  pub sub_path : Text
  pub read_only : Bool

unfoldable pub volume_mount : Volume → VolumeMount
volume_mount v = record {
  name = v.name;
  mount_path = v.mount_path;
  sub_path = v.sub_path;
  read_only = v.read_only;
}

module _ {Quantity : Type 0} (parse : Text → Result Quantity) where
  abbrev pub build_empty_dir : EmptyDirSource → Result (VolumeSource Quantity)
  build_empty_dir s =
      if is_empty s.size_limit
      then ok (empty_dir_volume s.medium none)
      else elim (parse s.size_limit) [
        | ok q ↦ ok (empty_dir_volume s.medium (some q))
        | err e ↦ err (codes "empty_dir.size_limit: " ++ e)
      ]

  -- The first source that is set, in the order of the `switch`.
  abbrev pub source_of :
      Bool
      → Option PvcSource
      → Option HostPathSource
      → Option ConfigMapSource
      → Option SecretSource
      → Option EmptyDirSource
      → Result (VolumeSource Quantity)
  source_of ro (some s) _ _ _ _ = ok (persistent_volume_claim s.claim_name ro)
  source_of ro none (some s) _ _ _ = ok (host_path_volume s.path s.kind)
  source_of ro none none (some s) _ _ = ok (config_map_volume s.name s.default_mode s.optional)
  source_of ro none none none (some s) _ = ok (secret_volume s.name s.default_mode s.optional)
  source_of ro none none none none (some s) = build_empty_dir s
  source_of ro none none none none none = err (codes "no source set (validator failed?)")

  -- A volume with its name.
  unfoldable pub build_volume_source : Volume → Result (Text × VolumeSource Quantity)
  build_volume_source v =
      source_of v.read_only v.pvc v.host_path v.config_map v.secret v.empty_dir >>= λ source.
      ok (v.name, source)

  unfoldable pub build_from :
      ℕ → List Volume → Result (List (Text × VolumeSource Quantity) × List VolumeMount)
  unfolding build_volume_source volume_mount
  build_from i [] = ok ([], [])
  build_from i (v ∷ vs) =
      let rest = build_from (suc i) vs in
      elim (build_volume_source v) [
        | err e ↦ err (codes "volumes[" ++ (decimal i ++ (codes "]: " ++ e)))
        | ok source ↦ rest >>= λ (sources, mounts). ok (source ∷ sources, volume_mount v ∷ mounts)
      ]

  unfoldable pub build_volumes :
      List Volume → Result (List (Text × VolumeSource Quantity) × List VolumeMount)
  unfolding build_from
  build_volumes vols = build_from 0 vols
