-- ===== src/Provisioner/Sandboxes/Creation.antt =====
-- pkg/provisioner/provisioner.go: what holds of every answer of handleCreate.
use agentry.Base.{
  ℕ, ◌≡◌, ◌≢◌, refl, Bool, true, false, none, arith, ◌==◌, if◌then◌else◌, Bool-cases, Option-cases,
  Result-cases, ◌⊎◌, inl, inr, Text, is_empty, Result, ok, err, codes, subst, sym, ◌∙◌,
}
use agentry.Base.Int.{ℤ}
use agentry.Provisioner.{Reply, writes_json, writes_error}
use agentry.Provisioner.Resources.{build_resource_requirements}
use agentry.Provisioner.Volumes.{merge_default_volumes, validate_volumes}
use agentry.Provisioner.Egress.{is_zero_policy, validate_policy}
use agentry.Provisioner.Backend.{SandboxInfo, SandboxSpec}
use agentry.Provisioner.Names.{is_taken, alloc_fresh_sandbox_id, alloc_fresh_sandbox_id-free}
use agentry.Provisioner.Sandboxes.{
  CreateRequest, Config, Env, checked_request, await_sandbox, create_service_for, create_sandbox,
  create_checked, handle_create, sandbox_spec, unless_says, wait_node_port, direct_url,
}

abbrev status_of : {A : Type 0} → Reply A → ℕ
status_of (writes_json code a) = code
status_of (writes_error code e) = code

module _ {World Quantity : Type 0} (env : Env World Quantity) (config : Config) where
  -- What is true of a request that passed the checks.
  pub record IsChecked (req checked : CreateRequest) : Type 0 where
    pub same_id : checked.sandbox_id ≡ req.sandbox_id
    pub same_ttl : checked.ttl_seconds ≡ req.ttl_seconds
    pub same_reuse : checked.reuse_existing ≡ req.reuse_existing
    pub fit_volumes : validate_volumes env.parse_quantity checked.volumes ≡ none
    pub fit_egress : validate_policy env.parse_cidr checked.egress ≡ none

  pub checked_request-IsChecked :
      (req : CreateRequest) {checked : CreateRequest}
      → checked_request env config req ≡ ok checked
      → IsChecked req checked
  unfolding checked_request
  checked_request-IsChecked req {checked} h =
      elim (Result-cases
        (build_resource_requirements env.parse_quantity env.defaults req.resources)) [
          | inr (e, failed) ↦ absurd (ground (arith, failed, h))
          | inl (r, built) ↦
              elim (Option-cases (
                validate_volumes env.parse_quantity
                  (merge_default_volumes req.volumes config.default_volumes))) [
                    | inr (e, failed) ↦ absurd (ground (arith, built, failed, h))
                    | inl volumes ↦
                        elim (Option-cases (
                          validate_policy env.parse_cidr (
                            if is_zero_policy req.egress
                            then config.default_egress
                            else req.egress))) [
                              | inr (e, failed) ↦ absurd (ground (arith, built, volumes, failed, h))
                              | inl egress ↦ ground (arith, built, volumes, egress, h)
                            ]
                  ]
        ]

  -- An answer of the creation itself names the id that it was given, and is no 400.
  Named : Text → Reply SandboxInfo → Type 0
  Named id (writes_json code info) = (code ≡ 200) × (info.sandbox_id ≡ id)
  Named id (writes_error code e) = code ≡ 500

  await_sandbox-Named :
      (spec : SandboxSpec) (w : World) → Named spec.sandbox_id (await_sandbox env config spec w).0
  unfolding await_sandbox Named
  await_sandbox-Named spec w =
      let waited = wait_node_port env config 20 spec.sandbox_id w in
      elim (Bool-cases (waited.0 == 0)) [
        | inl never ↦ rw (never, await_sandbox) refl
        | inr port ↦ elim (Option-cases (env.ready_probe (direct_url config waited.0) waited.1)) [
          | inr (e, dead) ↦ rw (port, dead, await_sandbox) refl
          | inl ready ↦ rw (port, ready, await_sandbox) (refl, refl)
        ]
      ]

  create_service_for-Named :
      (spec : SandboxSpec) (w : World)
      → Named spec.sandbox_id (create_service_for env config spec w).0
  unfolding create_service_for Named
  create_service_for-Named spec w =
      elim (Option-cases
        (unless_says (codes "already exists") (env.backend.create_service spec w).0)) [
          | inr (e, failed) ↦ rw (failed, create_service_for) refl
          | inl made ↦
              rw (made, create_service_for)
                (await_sandbox-Named spec (env.backend.create_service spec w).1)
        ]

  create_sandbox-Named :
      (spec : SandboxSpec) (w : World) → Named spec.sandbox_id (create_sandbox env config spec w).0
  unfolding create_sandbox Named
  create_sandbox-Named spec w =
      elim (Option-cases (unless_says (codes "already exists") (env.backend.create_pod spec w).0)) [
        | inr (e, failed) ↦ rw (failed, create_sandbox) refl
        | inl made ↦
            rw (made, create_sandbox)
              (create_service_for-Named spec (env.backend.create_pod spec w).1)
      ]

  -- The two arms: the name that was asked for, or a fresh one.
  Answered : Bool → World → Reply SandboxInfo → Type 0
  Answered reuse w (writes_json code info) =
      (code ≡ 200) × ((reuse ≡ true) ⊎ (is_taken env.backend info.sandbox_id w ≡ false))
  Answered reuse w (writes_error code e) = code ≡ 500

  Named-Answered :
      (reuse : Bool) (w : World) (id : Text) (r : Reply SandboxInfo)
      → is_taken env.backend id w ≡ false
      → Named id r
      → Answered reuse w r
  unfolding Named Answered
  Named-Answered reuse w id (writes_json code info) free n =
      (n.0, inr (subst (λ i. is_taken env.backend i w ≡ false) (sym n.1) free))
  Named-Answered reuse w id (writes_error code e) free n = n

  create_checked-Answered :
      (req : CreateRequest) (now : ℤ) (w : World)
      → Answered req.reuse_existing w (create_checked env config req now w).0
  unfolding create_checked
  create_checked-Answered req now w = elim (Bool-cases (is_taken env.backend req.sandbox_id w)) [
    | inr free ↦
        rw (free, create_checked)
          (Named-Answered _ w req.sandbox_id _ free (
            unfold sandbox_spec in
            create_sandbox-Named (sandbox_spec env config req req.sandbox_id now) w))
    | inl taken ↦ elim (Bool-cases req.reuse_existing) [
      | inl reuse ↦ rw (taken, reuse, create_checked) (unfold Answered in (refl, inl refl))
      | inr fresh ↦
          elim (Result-cases (alloc_fresh_sandbox_id env.backend env.random req.sandbox_id w)) [
            | inr (e, failed) ↦ rw (taken, fresh, failed, create_checked) (unfold Answered in refl)
            | inl (id, found) ↦
                rw (taken, fresh, found, create_checked)
                  (Named-Answered _ w id _
                    (alloc_fresh_sandbox_id-free env.backend env.random req.sandbox_id w found)
                    (unfold sandbox_spec in
                      create_sandbox-Named (sandbox_spec env config req id now) w))
          ]
    ]
  ]

  Answered-json :
      (reuse : Bool) (w : World) (r : Reply SandboxInfo) {code : ℕ} {info : SandboxInfo}
      → Answered reuse w r
      → r ≡ writes_json code info
      → reuse ≡ false
      → is_taken env.backend info.sandbox_id w ≡ false
  unfolding Answered
  Answered-json reuse w (writes_json code i) a e own = ground (arith, a, e, own)
  Answered-json reuse w (writes_error code m) a e own = cc

  not-Answered-400 :
      (reuse : Bool) (w : World) (r : Reply SandboxInfo) {e : Text}
      → Answered reuse w r
      → r ≢ writes_error 400 e
  unfolding Answered
  not-Answered-400 reuse w (writes_json code i) a h = cc
  not-Answered-400 reuse w (writes_error code m) a h = ground (arith, a, h)

  -- A sandbox that is made without the wish to reuse one has an id for whose service the backend,
  -- asked at that moment, reports no port above zero: none was allocated, the service is absent, or
  -- the backend failed to answer.
  pub handle_create-fresh :
      (req : CreateRequest) (now : ℤ) (w : World) {code : ℕ} {info : SandboxInfo}
      → req.reuse_existing ≡ false
      → (handle_create env config (ok req) now w).0 ≡ writes_json code info
      → is_taken env.backend info.sandbox_id w ≡ false
  unfolding handle_create
  handle_create-fresh req now w {code} {info} own h = elim (Bool-cases (is_empty req.sandbox_id)) [
    | inl nameless ↦ absurd (ground (arith, nameless, h))
    | inr named ↦ elim (Result-cases (checked_request env config req)) [
      | inr (e, failed) ↦ absurd (ground (arith, named, failed, h))
      | inl (checked, passed) ↦
          let answer : (create_checked env config checked now w).0 ≡ writes_json code info =
            ground (arith, named, passed, h) in
          Answered-json checked.reuse_existing w (create_checked env config checked now w).0
            (create_checked-Answered checked now w) answer
            ((checked_request-IsChecked req passed).same_reuse ∙ own)
    ]
  ]

  -- A request that is refused as bad has changed nothing.
  pub handle_create-untouched :
      (body : Result CreateRequest) (now : ℤ) (w : World) {e : Text}
      → (handle_create env config body now w).0 ≡ writes_error 400 e
      → (handle_create env config body now w).1 ≡ w
  unfolding handle_create
  handle_create-untouched (err m) now w h = refl
  handle_create-untouched (ok req) now w {e} h = elim (Bool-cases (is_empty req.sandbox_id)) [
    | inl nameless ↦ rw nameless refl
    | inr named ↦ elim (Result-cases (checked_request env config req)) [
      | inr (m, failed) ↦ rw (named, failed) refl
      | inl (checked, passed) ↦
          let answer : (create_checked env config checked now w).0 ≡ writes_error 400 e =
            ground (arith, named, passed, h) in
          absurd (
            not-Answered-400 checked.reuse_existing w (create_checked env config checked now w).0
              (create_checked-Answered checked now w) answer)
    ]
  ]
