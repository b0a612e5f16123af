-- ===== src/Runtime/Projects/Dependencies.antt =====
-- pkg/handlers/project.go: StartProject with the projects that a project depends on. It holds the lock
-- of each name while it starts the projects below; a call that waits for a lock that it holds itself
-- never answers, and is none.
pub mod Starts
use agentry.Base.{
  ℕ, zero, suc, ◌+◌, ◌<◌, ◌≡◌, refl, subst, Bool, true, false, ◌||◌, Option, none, some, List, [],
  ◌∷◌, ◌++◌, arith, if◌then◌else◌, Bool-cases, Option-cases, Result-cases, inl, inr, Text, codes,
  str_eq, str_eq_refl, eq_of_str_eq, lookup, insert, lookup-insert, All, Result, ok, err, ap,
}
use agentry.Runtime.Projects.{
  Project, ProjectConfig, ProjectManager, System, Status, is_running, is_circuit_open,
  stop_existing, stop_project, put_project, launch_project, start_project, start_closed,
}

unfoldable pub is_up : Text → ProjectManager → Bool
is_up name pm = elim (lookup name pm.projects) [ none ↦ false | some p ↦ is_running p.status ]

unfoldable pub holds : Text → List Text → Bool
holds name [] = false
holds name (h ∷ held) = str_eq h name || holds name held

-- The loop over the dependencies: none is a start that never answers, and else the error of the
-- first one that fails.
unfoldable pub start_dependencies :
    (Text → ProjectManager → Option (Result Project × ProjectManager))
    → List Text
    → ProjectManager
    → Option (Option Text × ProjectManager)
unfolding is_up
start_dependencies start [] pm = some (none, pm)
start_dependencies start (d ∷ ds) pm = elim (is_up d pm) [
  | true ↦ start_dependencies start ds pm
  | false ↦ elim (start d pm) [
    | none ↦ none
    | some (err e, pm') ↦
        some (some (codes "dependency '" ++ (d ++ (codes "' failed to start: " ++ e))), pm')
    | some (ok p, pm') ↦ start_dependencies start ds pm'
  ]
]

module _ (sys : System) where
  -- The depth of the calls is the fuel, and the locks that they hold come with it.
  unfoldable pub start_holding :
      ℕ → List Text → Text → ℕ → ProjectManager → Option (Result Project × ProjectManager)
  start_holding zero held name now pm = none
  start_holding (suc fuel) held name now pm = elim (holds name held) [
    | true ↦ none
    | false ↦ elim (is_circuit_open name now pm) [
      | true ↦ some (
        err (
            codes "project '"
            ++ (name ++ codes "' has crashed too many times, circuit breaker open")),
        pm,
      )
      | false ↦ elim (sys.read_config name) [
        | err e ↦ some (err e, stop_existing name pm)
        | ok config ↦
            elim (start_dependencies (λ d pm'. start_holding fuel (name ∷ held) d now pm')
              config.depends_on (stop_existing name pm)) [
                | none ↦ none
                | some (some e, pm2) ↦ some (err e, pm2)
                | some (none, pm2) ↦
                    some (launch_project sys (record config { name = name }) name now pm2)
              ]
      ]
    ]
  ]
