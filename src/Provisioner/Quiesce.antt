-- ===== src/Provisioner/Quiesce.antt =====
-- pkg/provisioner/deploy_quiesce.go: the projects of a sandbox are stopped while an image is built
-- from its workspace, and started again.
pub mod Calls
use agentry.Base.{
  ℕ, Bool, true, false, not, ◌&&◌, ◌||◌, Option, none, some, List, [], ◌∷◌, ◌++◌, ◌==◌,
  if◌then◌else◌, Text, codes, str_eq, base_name, decimal, quoted, Result, ok, err,
}
use agentry.Provisioner.Backend.{Backend, svc_name}

pub record RuntimeProject : Type 0 where
  pub name : Text
  pub status : Text

-- The runtime of a sandbox, by HTTP: an answer is its status, with the projects that its body
-- lists, or the error of the transport. Errors are logged only, and leave out the text of a body.
pub record ProjectApi (World : Type 0) : Type 0 where
  pub list_projects : Text → World → Result (ℕ × Result (List RuntimeProject))
  pub project_action : Text → Text → Text → World → Result ℕ × World

module _ {World : Type 0} (backend : Backend World) (api : ProjectApi World) where
  abbrev no_sandbox : Text → Text
  no_sandbox id = codes "sandbox " ++ (quoted id ++ codes " not found")

  -- A sandbox whose service has no port is not found.
  unfoldable pub is_reachable : Text → World → Bool
  is_reachable id w = elim (backend.get_node_port (svc_name id) w) [
    | err e ↦ false
    | ok port ↦ not (port == 0)
  ]

  unfoldable pub runtime_project_list : Text → World → Result (List RuntimeProject)
  runtime_project_list id w =
      if is_reachable id w
      then elim (api.list_projects id w) [
        | err e ↦ err e
        | ok (status, body) ↦
            if status == 200 then body else err (codes "project list status " ++ decimal status)
      ]
      else err (no_sandbox id)

  unfoldable pub runtime_project_action : Text → Text → Text → World → Option Text × World
  runtime_project_action id verb name w =
      let (answer, w') = api.project_action id verb name w in
      if is_reachable id w
      then elim answer [
        | err e ↦ (some e, w')
        | ok status ↦
            if status == 200
            then (none, w')
            else (some (codes "project " ++ (verb ++ (codes " status " ++ decimal status))), w')
      ]
      else (some (no_sandbox id), w)

  -- Whether the build reads the project's files.
  abbrev pub is_paused_by : Text → RuntimeProject → Bool
  is_paused_by project_path p =
      str_eq p.status (codes "running")
      && (str_eq project_path (codes "/workspace") || str_eq p.name (base_name project_path))

  -- The loop of pauseProjectsAt: a project that does not stop is passed over.
  unfoldable pub pause_each : Text → Text → List RuntimeProject → World → List Text × World
  pause_each id project_path [] w = ([], w)
  pause_each id project_path (p ∷ ps) w = elim (is_paused_by project_path p) [
    | false ↦ pause_each id project_path ps w
    | true ↦
        let (error, w') = runtime_project_action id (codes "stop") p.name w in
        let (paused, w'') = pause_each id project_path ps w' in
        elim error [ none ↦ (p.name ∷ paused, w'') | some e ↦ (paused, w'') ]
  ]

  unfoldable pub pause_projects_at : Text → Text → World → List Text × World
  pause_projects_at id project_path w = elim (runtime_project_list id w) [
    | err e ↦ ([], w)
    | ok projects ↦ pause_each id project_path projects w
  ]

  unfoldable pub resume_projects : Text → List Text → World → World
  resume_projects id [] w = w
  resume_projects id (n ∷ ns) w =
      resume_projects id ns (runtime_project_action id (codes "start") n w).1
