-- ===== src/Provisioner/Tests/Creation.antt =====
-- Runs of handleCreate on the mock backend.
use agentry.Base.{
  ℕ, ◌≡◌, refl, Bool, true, false, Option, none, some, List, [], ◌∷◌, arith, Text, codes, is_empty,
  lookup, Result, ok, err, ap, ◌<◌, ◌*◌, ◌∙◌,
}
use agentry.Base.Int.{ℤ, pos}
use agentry.Provisioner.{writes_json}
use agentry.Provisioner.Resources.{ResourceRequirements}
use agentry.Provisioner.Expiry.{second, expires_at_from_ttl}
use agentry.Provisioner.Backend.{SandboxInfo, SandboxSpec, svc_name}
use agentry.Provisioner.Mock.{MockBackend, new_mock_backend, mock_backend}
use agentry.Provisioner.Names.{is_taken, alloc_fresh_sandbox_id}
use agentry.Provisioner.Sandboxes.{
  CreateRequest, Config, Env, checked_request, handle_create, create_checked, sandbox_spec,
  create_sandbox,
}
use agentry.Provisioner.Sandboxes.Creation.{handle_create-fresh}
use agentry.Provisioner.Sandboxes.Mocked.{
  mocked, info_of, create_sandbox-mocked, handle_create-handle_get,
}
use agentry.Provisioner.Lifecycle.{handle_get}
use agentry.Provisioner.Tests.Models.{format}

abbrev no_quantity : Text → Result ℕ
no_quantity s = err (codes "no quantity")

abbrev no_defaults : ResourceRequirements ℕ
no_defaults = record { requests = []; limits = [] }

abbrev config : Config
config = record {
  sandbox_image = codes "agentry";
  labels = [];
  node_host = codes "node";
  runtime_api_key = [];
  bridge_url = [];
  default_volumes = [];
  default_egress = record { mode = []; rules = [] };
}

abbrev zeros : ℕ → Option (List ℕ)
zeros i = some (0 ∷ 0 ∷ 0 ∷ 0 ∷ [])

abbrev env : Env MockBackend ℕ
env = mocked no_quantity no_defaults (λ cidr. none) format zeros config

-- A sandbox `shop` for an hour, of which there may be one already.
abbrev shop : CreateRequest
shop = record {
  sandbox_id = codes "shop";
  thread_id = codes "t";
  resources = none;
  runtime_class = [];
  ttl_seconds = pos 3600;
  volumes = [];
  egress = record { mode = []; rules = [] };
  reuse_existing = false;
}

abbrev day : ℤ
day = pos (86_400 * second)

shop_passes : checked_request env config shop ≡ ok shop
unfolding checked_request agentry.Provisioner.Resources.build_resource_requirements
    agentry.Provisioner.Volumes.validate_volumes agentry.Provisioner.Volumes.merge_default_volumes
    agentry.Provisioner.Egress.validate_policy is_empty
shop_passes = refl

handle_create-handle_get_example :
    (info : SandboxInfo) × ((handle_create env config (ok shop) day new_mock_backend).0
      ≡ writes_json 200 info)
    × (handle_get env config
          (codes "shop")
          (handle_create env config (ok shop) day new_mock_backend).1
        ≡ writes_json 200 info)
    × (info.sandbox_id ≡ codes "shop")
    × (info.expires_at ≡ expires_at_from_ttl format day (pos 3600))
unfolding new_mock_backend lookup is_empty
handle_create-handle_get_example =
    handle_create-handle_get no_quantity no_defaults (λ cidr. none) format zeros config shop day
      new_mock_backend refl shop_passes refl refl refl (omega arith)

-- A name that is taken: the second caller gets a sandbox of its own.
abbrev again : MockBackend
again = record new_mock_backend {
  services = (svc_name (codes "shop"), 30_000) ∷ [];
  next_port = 30_001;
}

abbrev second_spec : SandboxSpec
second_spec = sandbox_spec env config shop (codes "shop-0000") day

second_checked :
    handle_create env config (ok shop) day again ≡ create_sandbox env config second_spec again
unfolding create_sandbox handle_create agentry.Provisioner.Sandboxes.unless_says is_empty
    mock_backend checked_request new_mock_backend
    agentry.Provisioner.Resources.build_resource_requirements lookup
    agentry.Provisioner.Volumes.validate_volumes agentry.Provisioner.Sandboxes.create_service_for
    agentry.Provisioner.Volumes.merge_default_volumes agentry.Base.str_eq
    agentry.Provisioner.Egress.validate_policy sandbox_spec create_checked
    agentry.Provisioner.Sandboxes.await_sandbox is_taken
    agentry.Provisioner.Sandboxes.wait_node_port alloc_fresh_sandbox_id
second_checked = refl

second_made :
    (handle_create env config (ok shop) day again).0
    ≡ writes_json 200
        (info_of no_quantity no_defaults (λ cidr. none) format zeros config second_spec 30_001)
unfolding new_mock_backend lookup sandbox_spec agentry.Base.str_eq svc_name
second_made =
    ap (λ r. r.0)
      (second_checked
        ∙ create_sandbox-mocked no_quantity no_defaults (λ cidr. none) format zeros config
            second_spec again refl refl refl (omega arith))

handle_create-fresh_example : is_taken mock_backend (codes "shop-0000") again ≡ false
unfolding sandbox_spec
handle_create-fresh_example = handle_create-fresh env config shop day again refl second_made
