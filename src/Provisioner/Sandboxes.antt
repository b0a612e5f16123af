-- ===== src/Provisioner/Sandboxes.antt =====
-- pkg/provisioner/provisioner.go: the creation of a sandbox, handleCreate.
pub mod Creation
pub mod Mocked
use agentry.Base.{
  ℕ, zero, suc, ◌+◌, ◌≤◌, ◌<◌, ◌≡◌, Bool, true, false, not, ◌&&◌, ◌||◌, Option, none, some, List,
  [], ◌∷◌, ◌++◌, ltb, ◌==◌, if◌then◌else◌, Text, codes, is_empty, contains_text, decimal, Map,
  Result, ok, err, ◌>>=◌,
}
use agentry.Base.Int.{ℤ}
use agentry.Provisioner.{Reply, writes_json, writes_error}
use agentry.Provisioner.Resources.{Resources, ResourceRequirements, build_resource_requirements}
use agentry.Provisioner.Volumes.{Volume, merge_default_volumes, validate_volumes}
use agentry.Provisioner.Egress.{EgressPolicy, is_zero_policy, validate_policy}
use agentry.Provisioner.Expiry.{annotation_expires_at, ttl_annotations}
use agentry.Provisioner.Backend.{SandboxInfo, SandboxSpec, Backend, pod_name, svc_name, value_of}
use agentry.Provisioner.Names.{is_taken, alloc_fresh_sandbox_id}

pub record CreateRequest : Type 0 where
  pub sandbox_id : Text
  pub thread_id : Text
  pub resources : Option Resources
  pub runtime_class : Text
  pub ttl_seconds : ℤ
  pub volumes : List Volume
  pub egress : EgressPolicy
  pub reuse_existing : Bool

-- The fields of Config that these handlers read.
pub record Config : Type 0 where
  pub sandbox_image : Text
  pub labels : Map Text
  pub node_host : Text
  pub runtime_api_key : Text
  pub bridge_url : Text
  pub default_volumes : List Volume
  pub default_egress : EgressPolicy

-- What the handlers call: the backend, ParseQuantity and its defaults, net.ParseCIDR with its
-- error, RFC 3339, crypto/rand by the number of the read, the probe of the new runtime's port, the
-- write of a file in a sandbox, and a pause, during which the world goes on.
pub record Env (World : Type 0) (Quantity : Type 0) : Type 0 where
  pub backend : Backend World
  pub parse_quantity : Text → Result Quantity
  pub defaults : ResourceRequirements Quantity
  pub parse_cidr : Text → Option Text
  pub format : ℤ → Text
  pub random : ℕ → Option (List ℕ)
  pub ready_probe : Text → World → Option Text
  pub file_write : Text → Text → Text → World → Option Text × World
  pub pause : World → World

unfoldable pub direct_url : Config → ℕ → Text
direct_url config port = codes "http://" ++ (config.node_host ++ (codes ":" ++ decimal port))

-- Provisioner.sandboxURL
unfoldable pub sandbox_url : Config → Text → ℕ → Text
unfolding direct_url
sandbox_url config id port =
    if is_empty config.bridge_url
    then direct_url config port
    else codes "http://bridge.invalid/api/sandboxes/" ++ (id ++ codes "/runtime")

-- An error that says `part` counts for none.
unfoldable pub unless_says : Text → Option Text → Option Text
unless_says part none = none
unless_says part (some e) = if contains_text e part then none else some e

module _ {World Quantity : Type 0} (env : Env World Quantity) (config : Config) where
  -- The checks before anything is done, and the request with its defaults.
  unfoldable pub checked_request : CreateRequest → Result CreateRequest
  checked_request req =
      let volumes = merge_default_volumes req.volumes config.default_volumes in
      let egress = if is_zero_policy req.egress then config.default_egress else req.egress in
      build_resource_requirements env.parse_quantity env.defaults req.resources >>= λ _.
      elim (validate_volumes env.parse_quantity volumes) [
        | some e ↦ err e
        | none ↦ elim (validate_policy env.parse_cidr egress) [
          | some e ↦ err e
          | none ↦ ok (record req {
            thread_id = if is_empty req.thread_id then req.sandbox_id else req.thread_id;
            volumes = volumes;
            egress = egress;
          })
        ]
      ]

  -- The port of a service that may be there.
  unfoldable pub existing_port : Text → World → ℕ
  existing_port id w = elim (env.backend.get_node_port (svc_name id) w) [
    | ok port ↦ port
    | err e ↦ 0
  ]

  -- Twenty looks for the port, half a second apart; zero is none.
  unfoldable pub wait_node_port : ℕ → Text → World → ℕ × World
  unfolding existing_port
  wait_node_port zero id w = (0, w)
  wait_node_port (suc left) id w = elim (ltb 0 (existing_port id w)) [
    | true ↦ (existing_port id w, w)
    | false ↦ wait_node_port left id (env.pause w)
  ]

  -- The five tries to write AGENTRY_APP_NAME, whose failure is logged only.
  unfoldable pub stamp_app_name : ℕ → Text → World → World
  stamp_app_name zero id w = w
  stamp_app_name (suc left) id w =
      let (error, w') =
        env.file_write id (codes "/var/run/agentry/agentry/AGENTRY_APP_NAME") id w in
      elim error [
        | none ↦ w'
        | some e ↦ elim left [ zero ↦ w' | suc _ ↦ stamp_app_name left id (env.pause w') ]
      ]

  unfoldable pub sandbox_spec : CreateRequest → Text → ℤ → SandboxSpec
  sandbox_spec req id now = record {
    sandbox_id = id;
    thread_id = req.thread_id;
    image = config.sandbox_image;
    labels = config.labels;
    node_host = config.node_host;
    resources = req.resources;
    runtime_class = req.runtime_class;
    annotations = elim (ttl_annotations env.format now req.ttl_seconds) [ none ↦ [] | some a ↦ a ];
    volumes = req.volumes;
    egress = req.egress;
    runtime_api_key = config.runtime_api_key;
  }

  -- From the two objects on: the port, the probe, the stamp and the answer.
  unfoldable pub await_sandbox : SandboxSpec → World → Reply SandboxInfo × World
  await_sandbox spec w =
      let id = spec.sandbox_id in
      let (port, w1) = wait_node_port 20 id w in
      if port == 0
      then (writes_error 500 (codes "NodePort not allocated in time"), w1)
      else elim (env.ready_probe (direct_url config port) w1) [
        | some e ↦ (writes_error 500 (codes "runtime did not become ready: " ++ e), w1)
        | none ↦
            let w2 = stamp_app_name 5 id w1 in
            (
              writes_json 200 (record {
                sandbox_id = id;
                sandbox_url = sandbox_url config id port;
                status = env.backend.get_pod_phase (pod_name id) w2;
                expires_at = value_of annotation_expires_at spec.annotations;
              }),
              w2,
            )
      ]

  -- A service that cannot be made takes the pod with it.
  unfoldable pub create_service_for : SandboxSpec → World → Reply SandboxInfo × World
  create_service_for spec w =
      let (error, w1) = env.backend.create_service spec w in
      elim (unless_says (codes "already exists") error) [
        | some e ↦ (
          writes_error 500 (codes "service creation failed: " ++ e),
          (env.backend.delete_pod (pod_name spec.sandbox_id) 0 w1).1,
        )
        | none ↦ await_sandbox spec w1
      ]

  unfoldable pub create_sandbox : SandboxSpec → World → Reply SandboxInfo × World
  create_sandbox spec w =
      let (error, w1) = env.backend.create_pod spec w in
      elim (unless_says (codes "already exists") error) [
        | some e ↦ (writes_error 500 (codes "pod creation failed: " ++ e), w1)
        | none ↦ create_service_for spec w1
      ]

  -- The two arms of a name that is taken.
  unfoldable pub create_checked : CreateRequest → ℤ → World → Reply SandboxInfo × World
  create_checked req now w =
      if is_taken env.backend req.sandbox_id w
      then if req.reuse_existing
        then (
          writes_json 200 (record {
            sandbox_id = req.sandbox_id;
            sandbox_url = sandbox_url config req.sandbox_id (existing_port req.sandbox_id w);
            status = env.backend.get_pod_phase (pod_name req.sandbox_id) w;
            expires_at = [];
          }),
          w,
        )
        else elim (alloc_fresh_sandbox_id env.backend env.random req.sandbox_id w) [
          | err e ↦
              (writes_error 500 (codes "sandbox name collision could not be resolved: " ++ e), w)
          | ok fresh ↦ create_sandbox (sandbox_spec req fresh now) w
        ]
      else create_sandbox (sandbox_spec req req.sandbox_id now) w

  -- A body that does not decode is an error.
  unfoldable pub handle_create : Result CreateRequest → ℤ → World → Reply SandboxInfo × World
  handle_create (err e) now w = (writes_error 400 (codes "invalid request body"), w)
  handle_create (ok req) now w =
      if is_empty req.sandbox_id
      then (writes_error 400 (codes "sandbox_id is required"), w)
      else elim (checked_request req) [
        | err e ↦ (writes_error 400 e, w)
        | ok checked ↦ create_checked checked now w
      ]
