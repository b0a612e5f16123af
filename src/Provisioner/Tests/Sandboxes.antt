-- ===== src/Provisioner/Tests/Sandboxes.antt =====
-- Runs of pkg/provisioner at concrete inputs: volumes, the egress filter, names and
-- the pauses of the projects.
use agentry.Base.{
  ℕ, suc, ◌≤◌, ◌≡◌, refl, Bool, true, false, Option, none, some, List, not, contains_byte, [], ◌∷◌,
  ◌++◌, arith, if◌then◌else◌, Bool-cases, inl, inr, Text, codes, is_empty, str_eq, length, lookup,
  map, All, Result, ok, err, ap, ◌∙◌,
}
use agentry.Provisioner.Volumes.{Volume, names_of, merge_default_volumes, validate_volumes}
use agentry.Provisioner.Volumes.Mounts.{validate_volumes-merge_default_volumes}
use agentry.Provisioner.Volumes.Checks.{IsMountable}
use agentry.Provisioner.Volumes.SubPaths.{validate_volumes-All, StaysInside}
use agentry.Provisioner.Egress.{EgressRule, EgressPolicy}
use agentry.Provisioner.Egress.Verdicts.{Packet}
use agentry.Provisioner.Mock.{MockBackend, new_mock_backend, mock_backend}
use agentry.Provisioner.Volumes.{is_dns1123_label, member}
use agentry.Provisioner.Backend.{Backend}
use agentry.Provisioner.Quiesce.{RuntimeProject, is_reachable, pause_projects_at, resume_projects}
use agentry.Provisioner.Quiesce.Calls.{Asked, logged, resume_projects-pause_projects_at}
use agentry.Provisioner.Names.{is_taken, alloc_fresh_sandbox_id}
use agentry.Provisioner.Names.Fresh.{Fills, alloc_fresh_sandbox_id-label}

-- No text is a quantity.
abbrev no_quantity : Text → Result ℕ
no_quantity s = err (codes "no quantity")

abbrev scratch : Text → Text → Volume
scratch name path = record {
  name = name;
  mount_path = path;
  sub_path = [];
  read_only = false;
  pvc = none;
  host_path = none;
  config_map = none;
  secret = none;
  empty_dir = some (record { medium = []; size_limit = [] });
}

asked : List Volume
asked = scratch (codes "data") (codes "/data") ∷ []

-- The second default has the mount of the request.
offered : List Volume
offered = scratch (codes "logs") (codes "/logs") ∷ scratch (codes "disk") (codes "/data") ∷ []

asked_passes : validate_volumes no_quantity asked ≡ none
unfolding validate_volumes asked is_empty agentry.Base.is_abs agentry.Base.has_prefix str_eq
    agentry.Base.clean agentry.Base.join agentry.Base.split_byte agentry.Provisioner.Volumes.member
asked_passes = refl

offered_passes : validate_volumes no_quantity offered ≡ none
unfolding validate_volumes offered is_empty agentry.Base.is_abs agentry.Base.has_prefix str_eq
    agentry.Base.clean agentry.Base.join agentry.Base.split_byte agentry.Provisioner.Volumes.member
offered_passes = refl

validate_volumes-merge_default_volumes_example :
    validate_volumes no_quantity (merge_default_volumes asked offered) ≡ none
validate_volumes-merge_default_volumes_example =
    validate_volumes-merge_default_volumes no_quantity asked offered asked_passes offered_passes

validate_volumes-All_example : All (λ (v : Volume). IsMountable v × StaysInside v.sub_path) asked
validate_volumes-All_example = validate_volumes-All no_quantity asked asked_passes

-- A packet to the one address that a policy allows.
abbrev allowed : EgressPolicy
allowed = record {
  mode = codes "deny";
  rules = record { cidr = codes "10.0.0.1/32"; ports = 443 ∷ []; proto = [] } ∷ [];
}

abbrev packet : Packet
packet = record {
  is_established = false;
  on_loopback = false;
  to_loopback = false;
  address = codes "10.0.0.1";
  protocol = codes "tcp";
  port = 443;
}

abbrev in_cidr : Text → Text → Bool
in_cidr address cidr = str_eq (address ++ codes "/32") cidr

-- An address of IPv6 has a colon.
abbrev is_ipv4 : Text → Bool
is_ipv4 cidr = not (contains_byte cidr b':')

-- crypto/rand gives four zero bytes each time.
abbrev zeros : ℕ → Option (List ℕ)
zeros i = some (0 ∷ 0 ∷ 0 ∷ 0 ∷ [])

zeros-Fills : Fills mock_backend zeros
zeros-Fills i = (0 ∷ 0 ∷ 0 ∷ 0 ∷ [], refl, refl)

fresh_shop :
    alloc_fresh_sandbox_id mock_backend zeros (codes "My Shop") new_mock_backend
    ≡ ok (codes "myshop-0000")
unfolding alloc_fresh_sandbox_id is_taken new_mock_backend mock_backend
    agentry.Provisioner.Mock.get_node_port lookup is_empty
fresh_shop = refl

alloc_fresh_sandbox_id-label_example :
    (is_taken mock_backend (codes "myshop-0000") new_mock_backend ≡ false)
    × (is_dns1123_label (codes "myshop-0000") ≡ true)
    × (length (codes "myshop-0000") ≤ 45)
alloc_fresh_sandbox_id-label_example =
    alloc_fresh_sandbox_id-label mock_backend zeros (codes "My Shop") new_mock_backend zeros-Fills
      fresh_shop

-- A sandbox with one project that runs and one that does not; its runtime stops any and starts none.
abbrev backend : Backend (List Asked)
backend = record {
  create_pod = λ spec w. (none, w);
  delete_pod = λ name grace w. (none, w);
  get_pod_phase = λ name w. codes "Running";
  create_service = λ spec w. (none, w);
  delete_service = λ name w. (none, w);
  get_node_port = λ name w. ok 30_000;
  list_sandboxes = λ w. ok [];
  exec_in_pod = λ name command w. (ok [], w);
  get_pod_annotations = λ name w. ok [];
  set_pod_annotations = λ name annotations w. (none, w);
}

abbrev projects : List RuntimeProject
projects =
    record { name = codes "web"; status = codes "running" }
    ∷ record { name = codes "db"; status = codes "stopped" }
    ∷ []

abbrev answers : Text → Text → Result ℕ
answers verb name = if str_eq verb (codes "stop") then ok 200 else err (codes "circuit open")

resume_projects-pause_projects_at_example :
    ((pause_projects_at backend (logged projects answers) (codes "shop") (codes "/workspace") []).0
      ≡ codes "web" ∷ [])
    × (resume_projects backend
          (logged projects answers)
          (codes "shop")
          (pause_projects_at backend
            (logged projects answers)
            (codes "shop")
            (codes "/workspace")
            []).0
          (pause_projects_at backend
            (logged projects answers)
            (codes "shop")
            (codes "/workspace")
            []).1
        ≡ record { verb = codes "stop"; name = codes "web" }
          ∷ record { verb = codes "start"; name = codes "web" }
          ∷ [])
unfolding is_reachable str_eq
resume_projects-pause_projects_at_example =
    resume_projects-pause_projects_at backend projects answers (codes "shop") (λ w. refl)
      (codes "/workspace")
