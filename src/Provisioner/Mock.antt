-- ===== src/Provisioner/Mock.antt =====
-- pkg/provisioner/mock_backend.go: the backend in memory. A port is an int32 that stays below 2 ^ 31.
use agentry.Base.{
  ℕ, ◌+◌, Option, none, some, List, [], ◌∷◌, ◌++◌, ◌==◌, if◌then◌else◌, Text, codes, decimal, Map,
  lookup, insert, delete, Result, ok, err,
}
use agentry.Provisioner.Backend.{
  SandboxInfo, SandboxSpec, Backend, pod_name, svc_name, merge_map, value_of,
}
use agentry.Provisioner.Expiry.{annotation_expires_at}

pub record PodRecord : Type 0 where
  pub spec : SandboxSpec
  pub phase : Text
  pub annotations : Map Text

pub record MockBackend : Type 0 where
  pub pods : Map PodRecord
  pub services : Map ℕ
  pub next_port : ℕ
  pub create_pod_err : Option Text

unfoldable pub new_mock_backend : MockBackend
new_mock_backend = record { pods = []; services = []; next_port = 30000; create_pod_err = none }

unfoldable pub create_pod : SandboxSpec → MockBackend → Option Text × MockBackend
unfolding pod_name merge_map
create_pod spec m = elim m.create_pod_err [
  | some e ↦ (some e, record m { create_pod_err = none })
  | none ↦ elim (lookup (pod_name spec.sandbox_id) m.pods) [
    | some _ ↦ (some (codes "already exists"), m)
    | none ↦ (
      none,
      record m {
        pods =
            insert (pod_name spec.sandbox_id)
              (record {
                spec = spec;
                phase = codes "Running";
                annotations = merge_map [] spec.annotations;
              })
              m.pods;
      },
    )
  ]
]

unfoldable pub delete_pod : Text → ℕ → MockBackend → Option Text × MockBackend
delete_pod name grace m = elim (lookup name m.pods) [
  | none ↦ (some (codes "not found"), m)
  | some _ ↦ (none, record m { pods = delete name m.pods })
]

unfoldable pub get_pod_phase : Text → MockBackend → Text
get_pod_phase name m = elim (lookup name m.pods) [ none ↦ codes "NotFound" | some p ↦ p.phase ]

unfoldable pub create_service : SandboxSpec → MockBackend → Option Text × MockBackend
unfolding svc_name
create_service spec m = elim (lookup (svc_name spec.sandbox_id) m.services) [
  | some _ ↦ (some (codes "already exists"), m)
  | none ↦ (
    none,
    record m {
      services = insert (svc_name spec.sandbox_id) m.next_port m.services;
      next_port = m.next_port + 1;
    },
  )
]

unfoldable pub delete_service : Text → MockBackend → Option Text × MockBackend
delete_service name m = elim (lookup name m.services) [
  | none ↦ (some (codes "not found"), m)
  | some _ ↦ (none, record m { services = delete name m.services })
]

unfoldable pub get_node_port : Text → MockBackend → Result ℕ
get_node_port name m = elim (lookup name m.services) [
  | some port ↦ ok port
  | none ↦ err (codes "service " ++ (name ++ codes " not found"))
]

-- One step of ListSandboxes: a pod whose service has no port is left out.
unfoldable pub list_entry : Text → PodRecord → ℕ → List SandboxInfo → List SandboxInfo
unfolding value_of
list_entry name p port rest =
    if port == 0
    then rest
    else (record {
      sandbox_id = p.spec.sandbox_id;
      sandbox_url = codes "http://" ++ (p.spec.node_host ++ (codes ":" ++ decimal port));
      status = p.phase;
      expires_at = value_of annotation_expires_at p.annotations;
    }
        ∷ rest)

-- services[name], with Go's zero for a missing key
unfoldable pub port_of : Text → Map ℕ → ℕ
port_of name services = elim (lookup name services) [ none ↦ 0 | some port ↦ port ]

unfoldable pub list_pods : Map ℕ → Map PodRecord → List SandboxInfo
unfolding list_entry port_of
list_pods services [] = []
list_pods services ((name, p) ∷ pods) =
    list_entry name p (port_of (name ++ codes "-svc") services) (list_pods services pods)

unfoldable pub list_sandboxes : MockBackend → Result (List SandboxInfo)
unfolding list_pods
list_sandboxes m = ok (list_pods m.services m.pods)

unfoldable pub exec_in_pod : Text → List Text → MockBackend → Result Text × MockBackend
exec_in_pod name command m = (ok [], m)

unfoldable pub get_pod_annotations : Text → MockBackend → Result (Map Text)
unfolding merge_map
get_pod_annotations name m = elim (lookup name m.pods) [
  | none ↦ err (codes "pod " ++ (name ++ codes " not found"))
  | some p ↦ ok (merge_map [] p.annotations)
]

unfoldable pub set_pod_annotations : Text → Map Text → MockBackend → Option Text × MockBackend
unfolding merge_map
set_pod_annotations name annotations m = elim (lookup name m.pods) [
  | none ↦ (some (codes "pod " ++ (name ++ codes " not found")), m)
  | some p ↦ (
    none,
    record m {
      pods = insert name (record p { annotations = merge_map p.annotations annotations }) m.pods;
    },
  )
]

-- The calls that only tests make.
unfoldable pub set_pod_phase : Text → Text → MockBackend → MockBackend
set_pod_phase name phase m = elim (lookup name m.pods) [
  | none ↦ m
  | some p ↦ record m { pods = insert name (record p { phase = phase }) m.pods }
]

unfoldable set_annotation_direct : Text → Text → Text → MockBackend → MockBackend
set_annotation_direct name key value m = elim (lookup name m.pods) [
  | none ↦ m
  | some p ↦ record m {
    pods = insert name (record p { annotations = insert key value p.annotations }) m.pods;
  }
]

unfoldable pre_seed : Text → Text → ℕ → MockBackend → MockBackend
unfolding pod_name
pre_seed id host port m =
    let spec : SandboxSpec = record {
      sandbox_id = id;
      thread_id = [];
      image = [];
      labels = [];
      node_host = host;
      resources = none;
      runtime_class = [];
      annotations = [];
      volumes = [];
      egress = record { mode = []; rules = [] };
      runtime_api_key = [];
    } in
    record m {
      pods =
          insert (pod_name id) (record { spec = spec; phase = codes "Running"; annotations = [] })
            m.pods;
      services = insert (pod_name id ++ codes "-svc") port m.services;
    }

unfoldable pub mock_backend : Backend MockBackend
unfolding create_pod delete_pod get_pod_phase create_service delete_service get_node_port
    list_sandboxes exec_in_pod get_pod_annotations set_pod_annotations
mock_backend = record {
  create_pod = create_pod;
  delete_pod = delete_pod;
  get_pod_phase = get_pod_phase;
  create_service = create_service;
  delete_service = delete_service;
  get_node_port = get_node_port;
  list_sandboxes = list_sandboxes;
  exec_in_pod = exec_in_pod;
  get_pod_annotations = get_pod_annotations;
  set_pod_annotations = set_pod_annotations;
}
