-- ===== src/Provisioner/Backend.antt =====
-- pkg/provisioner/provisioner.go: the seam between the provisioner and what runs the sandboxes.
use agentry.Base.{
  ℕ, ◌+◌, ◌≡◌, Bool, refl, Bool-cases, inl, inr, str_eq, Option, none, some, List, [], ◌∷◌, ◌++◌,
  ◌==◌, if◌then◌else◌, Text, codes, decimal, Map, lookup, insert, delete, Result, ok, err,
}
use agentry.Provisioner.Resources.{Resources}
use agentry.Provisioner.Volumes.{Volume}
use agentry.Provisioner.Egress.{EgressPolicy}
use agentry.Provisioner.Expiry.{annotation_expires_at, ttl_annotations, expires_at_from_ttl}
use agentry.Base.Int.{ℤ, pos, leb_ℤ}

pub record SandboxInfo : Type 0 where
  pub sandbox_id : Text
  pub sandbox_url : Text
  pub status : Text
  pub expires_at : Text

pub record SandboxSpec : Type 0 where
  pub sandbox_id : Text
  pub thread_id : Text
  pub image : Text
  pub labels : Map Text
  pub node_host : Text
  pub resources : Option Resources
  pub runtime_class : Text
  pub annotations : Map Text
  pub volumes : List Volume
  pub egress : EgressPolicy
  pub runtime_api_key : Text

-- A call that changes the state answers with its error, if it fails, and the state afterwards. The
-- namespace is the same in every call, and the error of GetPodPhase is never looked at.
pub record Backend (World : Type 0) : Type 0 where
  pub create_pod : SandboxSpec → World → Option Text × World
  pub delete_pod : Text → ℕ → World → Option Text × World
  pub get_pod_phase : Text → World → Text
  pub create_service : SandboxSpec → World → Option Text × World
  pub delete_service : Text → World → Option Text × World
  pub get_node_port : Text → World → Result ℕ
  pub list_sandboxes : World → Result (List SandboxInfo)
  pub exec_in_pod : Text → List Text → World → Result Text × World
  pub get_pod_annotations : Text → World → Result (Map Text)
  pub set_pod_annotations : Text → Map Text → World → Option Text × World

unfoldable pub pod_name : Text → Text
pod_name id = codes "sandbox-" ++ id

unfoldable pub svc_name : Text → Text
unfolding pod_name
svc_name id = pod_name id ++ codes "-svc"

-- Entries copied into a map, in their order.
unfoldable pub merge_map : Map Text → Map Text → Map Text
merge_map m [] = m
merge_map m ((k, v) ∷ entries) = merge_map (insert k v m) entries

-- m[k], with Go's empty string for a missing key
unfoldable pub value_of : Text → Map Text → Text
value_of k m = elim (lookup k m) [ none ↦ [] | some v ↦ v ]

module _ (format : ℤ → Text) where
  -- The annotations of a new sandbox keep its deadline, and none stands for no deadline.
  pub expires_at-value_of :
      (now ttl : ℤ)
      → value_of annotation_expires_at
          (elim (ttl_annotations format now ttl) as (λ _. Map Text) [ none ↦ [] | some a ↦ a ])
        ≡ expires_at_from_ttl format now ttl
  unfolding value_of ttl_annotations expires_at_from_ttl lookup insert str_eq agentry.Base.delete
  expires_at-value_of now ttl = elim (Bool-cases (leb_ℤ ttl (pos 0))) [
    | inl endless ↦ rw endless refl
    | inr limited ↦ rw limited refl
  ]
