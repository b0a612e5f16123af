-- ===== src/Provisioner/Resources.antt =====
-- pkg/provisioner/resources.go: the CPU, memory and storage of a sandbox. A quantity is a value of
-- Kubernetes' package resource, and `parse` is its ParseQuantity.
use agentry.Base.{
  Option, none, some, [], ◌∷◌, ◌++◌, if◌then◌else◌, Text, codes, is_empty, quoted, Map, insert,
  Result, ok, err, ◌>>=◌,
}

pub record ResourceList : Type 0 where
  pub cpu : Text
  pub memory : Text
  pub ephemeral_storage : Text
  pub gpu : Text

-- A nil pointer is none.
pub record Resources : Type 0 where
  pub requests : Option ResourceList
  pub limits : Option ResourceList

abbrev pub cpu_key : Text
cpu_key = codes "cpu"

abbrev pub memory_key : Text
memory_key = codes "memory"

abbrev pub storage_key : Text
storage_key = codes "ephemeral-storage"

abbrev pub gpu_resource_name : Text
gpu_resource_name = codes "nvidia.com/gpu"

-- corev1.ResourceRequirements
pub record ResourceRequirements (Quantity : Type 0) : Type 0 where
  pub requests : Map Quantity
  pub limits : Map Quantity

module _ {Quantity : Type 0} (parse : Text → Result Quantity) where
  -- One `if` of applyResourceList: an empty text leaves the default.
  unfoldable pub apply_quantity : Text → Text → Text → Map Quantity → Result (Map Quantity)
  apply_quantity key label value dst = if is_empty value then ok dst else elim (parse value) [
    | ok q ↦ ok (insert key q dst)
    | err e ↦
        err (codes "invalid " ++ (label ++ (codes " " ++ (quoted value ++ (codes ": " ++ e)))))
  ]

  unfoldable pub apply_resource_list : Map Quantity → ResourceList → Text → Result (Map Quantity)
  unfolding apply_quantity
  apply_resource_list dst src side =
      apply_quantity cpu_key (side ++ codes ".cpu") src.cpu dst
      >>= apply_quantity memory_key (side ++ codes ".memory") src.memory
      >>= apply_quantity storage_key (side ++ codes ".ephemeral_storage") src.ephemeral_storage
      >>= apply_quantity gpu_resource_name (side ++ codes ".gpu") src.gpu

  unfoldable pub apply_side : Option ResourceList → Text → Map Quantity → Result (Map Quantity)
  unfolding apply_resource_list
  apply_side none side dst = ok dst
  apply_side (some src) side dst = apply_resource_list dst src side

  -- The defaults of the process are the first argument.
  unfoldable pub build_resource_requirements :
      ResourceRequirements Quantity → Option Resources → Result (ResourceRequirements Quantity)
  unfolding apply_side
  build_resource_requirements defaults none = ok defaults
  build_resource_requirements defaults (some user) =
      apply_side user.requests (codes "requests") defaults.requests >>= λ requests.
      apply_side user.limits (codes "limits") defaults.limits >>= λ limits.
      ok (record { requests = requests; limits = limits })

  -- envOr of the environment, and MustParse, which panics on a bad quantity: none.
  unfoldable pub default_quantity : (Text → Text) → Text → Text → Option Quantity
  default_quantity env name fallback =
      elim (parse (if is_empty (env name) then fallback else env name)) [
        | ok q ↦ some q
        | err e ↦ none
      ]

  -- The sequence of three, with the keys in the order of the source.
  abbrev three_of : Option Quantity → Option Quantity → Option Quantity → Option (Map Quantity)
  three_of (some cpu) (some memory) (some storage) =
      some ((cpu_key, cpu) ∷ (memory_key, memory) ∷ (storage_key, storage) ∷ [])
  three_of _ _ _ = none

  unfoldable pub default_resources : (Text → Text) → Option (ResourceRequirements Quantity)
  unfolding default_quantity
  default_resources env =
      elim (three_of (default_quantity env (codes "SANDBOX_DEFAULT_CPU_REQUEST") (codes "1"))
        (default_quantity env (codes "SANDBOX_DEFAULT_MEMORY_REQUEST") (codes "2Gi"))
        (default_quantity env (codes "SANDBOX_DEFAULT_STORAGE_REQUEST") (codes "8Gi"))) [
          | none ↦ none
          | some requests ↦
              elim (three_of (default_quantity env (codes "SANDBOX_DEFAULT_CPU_LIMIT") (codes "8"))
                (default_quantity env (codes "SANDBOX_DEFAULT_MEMORY_LIMIT") (codes "12Gi"))
                (default_quantity env (codes "SANDBOX_DEFAULT_STORAGE_LIMIT") (codes "32Gi"))) [
                  | none ↦ none
                  | some limits ↦ some (record { requests = requests; limits = limits })
                ]
        ]
