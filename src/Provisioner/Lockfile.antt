-- ===== src/Provisioner/Lockfile.antt =====
-- pkg/provisioner/lockfile.go: the lockfile of a sandbox, which the provisioner keeps in it.
pub mod Records
use agentry.Base.{
  ℕ, ◌≡◌, Bool, true, false, not, Option, none, some, List, [], ◌∷◌, ◌++◌, ◌==◌, if◌then◌else◌,
  Text, codes, is_empty, str_eq, decimal, quoted, Result, ok, err,
}
use agentry.Provisioner.Backend.{Backend, svc_name}

pub record LockedBinding : Type 0 where
  pub service : Text
  pub version : Text
  pub env_vars : List Text
  pub resolved_at : Text

pub record LockedSkill : Type 0 where
  pub name : Text
  pub version : Text
  pub resolved_at : Text

pub record Lockfile : Type 0 where
  pub version : ℕ
  pub cluster : Text
  pub bindings : List LockedBinding
  pub secrets : List Text
  pub skills : List LockedSkill

abbrev pub lockfile_path : Text
lockfile_path = codes "/workspace/.sandbox-lock.json"

-- The runtime of a sandbox, by HTTP: the status and the body of an answer, or the error of the
-- transport.
pub record FileApi (World : Type 0) : Type 0 where
  pub read_file : Text → Text → World → Result (ℕ × Text)
  pub write_file : Text → Text → Text → World → Result ℕ × World

-- The package encoding/json: the content in the envelope of an answer, the content in the older
-- answer without one, and a lockfile.
pub record Codec : Type 0 where
  pub data_content : Text → Option Text
  pub top_content : Text → Option Text
  pub decode : Text → Option Lockfile
  pub encode : Lockfile → Text

abbrev pub lock_or_new : Text → Option Lockfile → Lockfile
lock_or_new cluster (some lock) = lock
lock_or_new cluster none = record {
  version = 1;
  cluster = cluster;
  bindings = [];
  secrets = [];
  skills = [];
}

abbrev content_or : Option Text → Text → Text
content_or none rest = rest
content_or (some []) rest = rest
content_or (some (c ∷ s)) rest = c ∷ s

module _ {World : Type 0} (backend : Backend World) (api : FileApi World) (codec : Codec) where
  unfoldable pub has_runtime : Text → World → Bool
  has_runtime id w = elim (backend.get_node_port (svc_name id) w) [
    | err e ↦ false
    | ok port ↦ not (port == 0)
  ]

  abbrev missing : Text → Text
  missing id = codes "sandbox " ++ (quoted id ++ codes " not found")

  -- A file that is not there is empty.
  unfoldable pub runtime_file_read : Text → Text → World → Result Text
  runtime_file_read id path w =
      if has_runtime id w
      then elim (api.read_file id path w) [
        | err e ↦ err e
        | ok (status, raw) ↦
            if status == 404
            then ok []
            else if status == 200
            then ok (content_or (codec.data_content raw) (content_or (codec.top_content raw) raw))
            else err (codes "read " ++ (path ++ (codes ": status " ++ decimal status)))
      ]
      else err (missing id)

  unfoldable pub runtime_file_write : Text → Text → Text → World → Option Text × World
  runtime_file_write id path content w =
      let (answer, w') = api.write_file id path content w in
      if has_runtime id w
      then elim answer [
        | err e ↦ (some (codes "write " ++ (path ++ (codes ": " ++ e))), w')
        | ok status ↦
            if status == 200
            then (none, w')
            else (some (codes "write " ++ (path ++ (codes ": status " ++ decimal status))), w')
      ]
      else (some (missing id), w)

  -- A lockfile that does not decode counts for none.
  unfoldable pub read_lockfile : Text → World → Result (Option Lockfile)
  read_lockfile id w = elim (runtime_file_read id lockfile_path w) [
    | err e ↦ err e
    | ok raw ↦ if is_empty raw then ok none else ok (codec.decode raw)
  ]

  unfoldable pub write_lockfile : Text → Lockfile → World → Option Text × World
  write_lockfile id lock w = runtime_file_write id lockfile_path (codec.encode lock ++ 10 ∷ []) w

  unfoldable pub update_lockfile : Text → Text → (Lockfile → Lockfile) → World → Option Text × World
  update_lockfile cluster id mut w = elim (read_lockfile id w) [
    | err e ↦ (some e, w)
    | ok lock ↦ write_lockfile id (mut (lock_or_new cluster lock)) w
  ]

-- The loop that drops the entries of a service.
unfoldable pub without_service : Text → List LockedBinding → List LockedBinding
without_service service [] = []
without_service service (b ∷ bs) =
    let rest = without_service service bs in if str_eq b.service service then rest else b ∷ rest

unfoldable pub with_binding : LockedBinding → Lockfile → Lockfile
with_binding b lock = record lock { bindings = without_service b.service lock.bindings ++ b ∷ [] }

-- The lookup of findExistingBinding.
unfoldable pub find_binding : Text → List LockedBinding → Option LockedBinding
find_binding service [] = none
find_binding service (b ∷ bs) =
    let rest = find_binding service bs in if str_eq b.service service then some b else rest

module _ {World : Type 0} (backend : Backend World) (api : FileApi World) (codec : Codec) where
  unfoldable pub record_binding_in_lockfile :
      Text → Text → LockedBinding → World → Option Text × World
  record_binding_in_lockfile cluster id b w =
      update_lockfile backend api codec cluster id (with_binding b) w

  unfoldable pub find_existing_binding : Text → Text → World → Option LockedBinding
  find_existing_binding id service w = elim (read_lockfile backend api codec id w) [
    | err e ↦ none
    | ok none ↦ none
    | ok (some lock) ↦ find_binding service lock.bindings
  ]
