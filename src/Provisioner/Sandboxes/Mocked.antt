-- ===== src/Provisioner/Sandboxes/Mocked.antt =====
-- pkg/provisioner/provisioner.go with pkg/provisioner/mock_backend.go: a sandbox that was created is
-- there for the other handlers.
use agentry.Base.{
  ℕ, zero, suc, ◌+◌, ◌≤◌, ◌<◌, ◌≡◌, refl, Bool, true, false, Option, none, some, List, [], ◌∷◌,
  arith, ltb, lt→ltb, ◌==◌, if◌then◌else◌, Bool-cases, inl, inr, Text, codes, is_empty, str_eq,
  str_eq_refl, Map, lookup, insert, lookup-insert, Result, ok, err, subst, sym, ◌∙◌, ap,
}
use agentry.Base.Int.{ℤ, pos, leb_ℤ}
use agentry.Provisioner.{Reply, writes_json}
use agentry.Provisioner.Resources.{ResourceRequirements}
use agentry.Provisioner.Expiry.{annotation_expires_at, expires_at_from_ttl, ttl_annotations}
use agentry.Provisioner.Backend.{
  SandboxInfo, SandboxSpec, pod_name, svc_name, value_of, merge_map, expires_at-value_of,
}
use agentry.Provisioner.Mock
use agentry.Provisioner.Mock.{MockBackend, PodRecord, mock_backend}
use agentry.Provisioner.Sandboxes.{
  CreateRequest, Config, Env, sandbox_url, create_sandbox, create_service_for, await_sandbox,
  wait_node_port, existing_port, stamp_app_name, unless_says, handle_create, checked_request,
  create_checked, sandbox_spec,
}
use agentry.Provisioner.Names.{is_taken}
use agentry.Provisioner.Sandboxes.Creation.{checked_request-IsChecked}
use agentry.Provisioner.Lifecycle.{handle_get}

-- The mock with the sandbox in it.
abbrev pub placed : SandboxSpec → MockBackend → MockBackend
placed spec m = record m {
  pods =
      insert (pod_name spec.sandbox_id)
        (record {
          spec = spec;
          phase = codes "Running";
          annotations = merge_map [] spec.annotations;
        })
        m.pods;
  services = insert (svc_name spec.sandbox_id) m.next_port m.services;
  next_port = m.next_port + 1;
}

module _ (spec : SandboxSpec) (m : MockBackend) where
  create_pod-mocked :
      m.create_pod_err ≡ none
      → lookup (pod_name spec.sandbox_id) m.pods ≡ none
      → mock_backend.create_pod spec m ≡ (none, record m { pods = (placed spec m).pods })
  unfolding mock_backend Mock.create_pod
  create_pod-mocked e no_pod = simp (e, no_pod, Mock.create_pod) refl

  create_service-mocked :
      lookup (svc_name spec.sandbox_id) m.services ≡ none
      → mock_backend.create_service spec (record m { pods = (placed spec m).pods })
        ≡ (none, placed spec m)
  unfolding mock_backend Mock.create_service
  create_service-mocked no_service = simp (no_service, Mock.create_service) refl

  lookup-placed_service :
      lookup (svc_name spec.sandbox_id) (placed spec m).services ≡ some m.next_port
  lookup-placed_service =
      lookup-insert (svc_name spec.sandbox_id) (svc_name spec.sandbox_id) m.next_port m.services
      ∙ rw (str_eq_refl (svc_name spec.sandbox_id)) refl

  lookup-placed_pod :
      lookup (pod_name spec.sandbox_id) (placed spec m).pods
      ≡ some (record {
        spec = spec;
        phase = codes "Running";
        annotations = merge_map [] spec.annotations;
      })
  lookup-placed_pod =
      lookup-insert (pod_name spec.sandbox_id) (pod_name spec.sandbox_id) _ m.pods
      ∙ rw (str_eq_refl (pod_name spec.sandbox_id)) refl

  placed-port :
      mock_backend.get_node_port (svc_name spec.sandbox_id) (placed spec m) ≡ ok m.next_port
  unfolding mock_backend Mock.get_node_port lookup insert str_eq
  placed-port = rw lookup-placed_service refl

  placed-phase :
      mock_backend.get_pod_phase (pod_name spec.sandbox_id) (placed spec m) ≡ codes "Running"
  unfolding mock_backend Mock.get_pod_phase lookup insert str_eq
  placed-phase = rw lookup-placed_pod refl

  placed-annotations :
      mock_backend.get_pod_annotations (pod_name spec.sandbox_id) (placed spec m)
      ≡ ok (merge_map [] (merge_map [] spec.annotations))
  unfolding mock_backend Mock.get_pod_annotations lookup insert str_eq
  placed-annotations = rw lookup-placed_pod refl

nonzero : (n : ℕ) → 0 < n → (n == 0) ≡ false
nonzero n h = ground (arith, h)

module _ {World Quantity : Type 0} (env : Env World Quantity) (config : Config) (spec : SandboxSpec)
    {w w' : World} where
  create_service_for-made :
      env.backend.create_service spec w ≡ (none, w')
      → create_service_for env config spec w ≡ await_sandbox env config spec w'
  unfolding create_service_for unless_says
  create_service_for-made service =
      rw (service, create_service_for) (ap (λ r. await_sandbox env config spec r.1) service)

  create_sandbox-made :
      env.backend.create_pod spec w ≡ (none, w')
      → create_sandbox env config spec w ≡ create_service_for env config spec w'
  unfolding create_sandbox unless_says
  create_sandbox-made pod =
      rw (pod, create_sandbox) (ap (λ r. create_service_for env config spec r.1) pod)

wait_node_port-now :
    {World Quantity : Type 0} (env : Env World Quantity) (config : Config) (left : ℕ) (id : Text)
    (w : World) {port : ℕ}
    → existing_port env config id w ≡ port
    → 0 < port
    → wait_node_port env config (suc left) id w ≡ (port, w)
unfolding wait_node_port
wait_node_port-now env config left id w e h =
    let positive : ltb 0 (existing_port env config id w) ≡ true = lt→ltb 0 _ (rw e h) in
    rw (positive, wait_node_port) (ap (λ p. (p, w)) e)

module _ {Quantity : Type 0} (parse_quantity : Text → Result Quantity)
    (defaults : ResourceRequirements Quantity) (parse_cidr : Text → Option Text) (format : ℤ → Text)
    (random : ℕ → Option (List ℕ)) (config : Config) where
  -- The mock with a runtime that is ready at once and takes each write.
  abbrev pub mocked : Env MockBackend Quantity
  mocked = record {
    backend = mock_backend;
    parse_quantity = parse_quantity;
    defaults = defaults;
    parse_cidr = parse_cidr;
    format = format;
    random = random;
    ready_probe = λ url w. none;
    file_write = λ id path content w. (none, w);
    pause = λ w. w;
  }

  abbrev pub info_of : SandboxSpec → ℕ → SandboxInfo
  info_of spec port = record {
    sandbox_id = spec.sandbox_id;
    sandbox_url = sandbox_url config spec.sandbox_id port;
    status = codes "Running";
    expires_at = value_of annotation_expires_at spec.annotations;
  }

  await_sandbox-placed :
      (spec : SandboxSpec) (m : MockBackend)
      → 0 < m.next_port
      → await_sandbox mocked config spec (placed spec m)
        ≡ (writes_json 200 (info_of spec m.next_port), placed spec m)
  unfolding await_sandbox stamp_app_name existing_port
  await_sandbox-placed spec m h =
      rw
        (
          wait_node_port-now mocked config 19 spec.sandbox_id (placed spec m) port h,
          nonzero m.next_port h,
          placed-phase spec m,
          await_sandbox,
        )
        refl
    where
      port : existing_port mocked config spec.sandbox_id (placed spec m) ≡ m.next_port
      port = rw (placed-port spec m, existing_port) refl

  pub create_sandbox-mocked :
      (spec : SandboxSpec) (m : MockBackend)
      → m.create_pod_err ≡ none
      → lookup (pod_name spec.sandbox_id) m.pods ≡ none
      → lookup (svc_name spec.sandbox_id) m.services ≡ none
      → 0 < m.next_port
      → create_sandbox mocked config spec m
        ≡ (writes_json 200 (info_of spec m.next_port), placed spec m)
  create_sandbox-mocked spec m e no_pod no_service h =
      create_sandbox-made mocked config spec (create_pod-mocked spec m e no_pod)
      ∙ create_service_for-made mocked config spec (create_service-mocked spec m no_service)
      ∙ await_sandbox-placed spec m h

  value_of-merge_map :
      (now ttl : ℤ)
      → value_of annotation_expires_at (
          merge_map [] (
            merge_map [] (elim (ttl_annotations format now ttl) as (λ _. Map Text) [
              | none ↦ []
              | some a ↦ a
            ])))
        ≡ value_of annotation_expires_at
            (elim (ttl_annotations format now ttl) as (λ _. Map Text) [ none ↦ [] | some a ↦ a ])
  unfolding value_of merge_map ttl_annotations lookup insert str_eq
      agentry.Provisioner.Expiry.expires_at_from_ttl agentry.Base.delete
  value_of-merge_map now ttl = elim (Bool-cases (leb_ℤ ttl (pos 0))) [
    | inl endless ↦ rw endless refl
    | inr limited ↦ rw limited refl
  ]

  taken-mocked :
      (id : Text) (m : MockBackend)
      → lookup (svc_name id) m.services ≡ none
      → is_taken mock_backend id m ≡ false
  unfolding is_taken mock_backend Mock.get_node_port
  taken-mocked id m no_service = rw (no_service, is_taken) refl

  handle_create-checked :
      (req : CreateRequest) (now : ℤ) (m : MockBackend) {checked : CreateRequest}
      → is_empty req.sandbox_id ≡ false
      → checked_request mocked config req ≡ ok checked
      → is_taken mock_backend req.sandbox_id m ≡ false
      → handle_create mocked config (ok req) now m
        ≡ create_sandbox mocked config (sandbox_spec mocked config checked req.sandbox_id now) m
  unfolding handle_create create_checked
  handle_create-checked req now m {checked} named passed free =
      let same = (checked_request-IsChecked mocked config req passed).same_id in
      rw (named, passed) (rw (same, free, create_checked) refl)

  handle_get-placed :
      (spec : SandboxSpec) (m : MockBackend)
      → 0 < m.next_port
      → value_of annotation_expires_at (merge_map [] (merge_map [] spec.annotations))
        ≡ value_of annotation_expires_at spec.annotations
      → handle_get mocked config spec.sandbox_id (placed spec m)
        ≡ writes_json 200 (info_of spec m.next_port)
  unfolding handle_get mock_backend sandbox_url value_of lookup is_empty insert agentry.Base.decimal
      str_eq
  handle_get-placed spec m h same =
      rw
        (
          placed-port spec m,
          nonzero m.next_port h,
          placed-phase spec m,
          placed-annotations spec m,
          same,
        )
        refl

  -- On the mock backend, which is ready at once and takes each write, a request that passes the checks
  -- and names an id that is not empty and has no pod and no service, where no error of CreatePod is
  -- injected and the counter of ports is above zero, creates the sandbox: afterwards handleGet tells of
  -- it what handleCreate told, its id, which is the one asked for, and its deadline, which is that of the
  -- lifetime in the request, included.
  pub handle_create-handle_get :
      (req : CreateRequest) (now : ℤ) (m : MockBackend) {checked : CreateRequest}
      → is_empty req.sandbox_id ≡ false
      → checked_request mocked config req ≡ ok checked
      → m.create_pod_err ≡ none
      → lookup (pod_name req.sandbox_id) m.pods ≡ none
      → lookup (svc_name req.sandbox_id) m.services ≡ none
      → 0 < m.next_port
      → (info : SandboxInfo) × ((handle_create mocked config (ok req) now m).0
          ≡ writes_json 200 info)
        × (handle_get mocked config req.sandbox_id (handle_create mocked config (ok req) now m).1
            ≡ writes_json 200 info)
        × (info.sandbox_id ≡ req.sandbox_id)
        × (info.expires_at ≡ expires_at_from_ttl format now req.ttl_seconds)
  unfolding sandbox_spec ttl_annotations
  handle_create-handle_get req now m {checked} named passed e no_pod no_service h =
      let spec : SandboxSpec = sandbox_spec mocked config checked req.sandbox_id now in
      let made : handle_create mocked config (ok req) now m
          ≡ (writes_json 200 (info_of spec m.next_port), placed spec m) =
        handle_create-checked req now m named passed (taken-mocked req.sandbox_id m no_service)
        ∙ create_sandbox-mocked spec m e no_pod no_service h in
      (
        info_of spec m.next_port,
        ap (λ r. r.0) made,
        ap (λ r. handle_get mocked config req.sandbox_id r.1) made
            ∙ handle_get-placed spec m h (value_of-merge_map now checked.ttl_seconds),
        refl,
        expires_at-value_of format now checked.ttl_seconds
            ∙ ap (λ t. expires_at_from_ttl format now t)
                (checked_request-IsChecked mocked config req passed).same_ttl,
      )
