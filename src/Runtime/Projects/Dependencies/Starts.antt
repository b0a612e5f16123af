-- ===== src/Runtime/Projects/Dependencies/Starts.antt =====
-- pkg/handlers/project.go: when a start with dependencies comes to its end.
use agentry.Base.{
  ℕ, zero, suc, ◌<◌, ◌≡◌, refl, true, false, Option, none, some, List, [], ◌∷◌, ◌++◌, arith,
  Bool-cases, Option-cases, Result-cases, inl, inr, Text, codes, str_eq, str_eq_refl, eq_of_str_eq,
  lookup, lookup-insert, All, Result, ok, err, ap,
}
use agentry.Runtime.Projects.{
  Project, ProjectConfig, ProjectManager, System, is_running, is_circuit_open, stop_existing,
  stop_project, put_project, launch_project, start_project, start_closed,
}
use agentry.Runtime.Projects.Dependencies.{is_up, holds, start_dependencies, start_holding}

-- The start comes to its end, with the project or an error.
abbrev pub Answers : Option (Result Project × ProjectManager) → Type 0
Answers o = (r : Result Project × ProjectManager) × (o ≡ some r)

holds_self : (name : Text) (held : List Text) → holds name (name ∷ held) ≡ true
unfolding holds
holds_self name held = ground (arith, str_eq_refl name)

-- A project that a start has stopped does not run.
is_up-stop_existing :
    (name : Text) (pm : ProjectManager) → is_up name (stop_existing name pm) ≡ false
unfolding is_up stop_existing put_project stop_project
is_up-stop_existing name pm = elim (Option-cases (lookup name pm.projects)) [
  | inl absent ↦ rw (absent, stop_existing) (rw (absent, is_up) refl)
  | inr (p, found) ↦ elim (Bool-cases (is_running p.status)) [
    | inr idle ↦ rw (found, idle, stop_existing) (rw (found, is_up) idle)
    | inl up ↦
        rw (found, up, stop_existing)
          (rw (lookup-insert name name (stop_project p) pm.projects, str_eq_refl name, is_up) refl)
  ]
]

module _ (sys : System) where
  start_dependencies-stuck :
      (start : Text → ProjectManager → Option (Result Project × ProjectManager)) (d : Text)
      (ds : List Text) (pm : ProjectManager)
      → is_up d pm ≡ false
      → start d pm ≡ none
      → start_dependencies start (d ∷ ds) pm ≡ none
  unfolding start_dependencies
  start_dependencies-stuck start d ds pm down stuck = rw (down, stuck, start_dependencies) refl

  start_holding-held :
      (fuel : ℕ) (held : List Text) (name : Text) (now : ℕ) (pm : ProjectManager)
      → holds name held ≡ true
      → start_holding sys fuel held name now pm ≡ none
  unfolding start_holding
  start_holding-held zero held name now pm h = refl
  start_holding-held (suc fuel) held name now pm h = rw (h, start_holding) refl

  -- A project whose first dependency is itself is never started, and its start never answers, with
  -- however many calls, unless the breaker refuses it.
  pub start_holding_self :
      (fuel : ℕ) (held : List Text) (name : Text) (now : ℕ) (pm : ProjectManager)
      {config : ProjectConfig} {rest : List Text}
      → sys.read_config name ≡ ok config
      → config.depends_on ≡ name ∷ rest
      → is_circuit_open name now pm ≡ false
      → start_holding sys fuel held name now pm ≡ none
  unfolding start_holding
  start_holding_self zero held name now pm r d c = refl
  start_holding_self (suc fuel) held name now pm {config} {rest} r d c =
      elim (Bool-cases (holds name held)) [
        | inl own ↦ rw (own, start_holding) refl
        | inr free ↦
            let stuck : start_dependencies (λ e pm'. start_holding sys fuel (name ∷ held) e now pm')
                  config.depends_on (stop_existing name pm)
                ≡ none =
              rw d (
                start_dependencies-stuck (λ e pm'. start_holding sys fuel (name ∷ held) e now pm')
                  name rest (stop_existing name pm) (is_up-stop_existing name pm)
                  (start_holding-held fuel (name ∷ held) name now (stop_existing name pm)
                    (holds_self name held))) in
            rw (free, c, r, stuck, start_holding) refl
      ]

  start_dependencies-Answers :
      (start : Text → ProjectManager → Option (Result Project × ProjectManager)) (ds : List Text)
      (pm : ProjectManager)
      → All (λ d. (q : ProjectManager) → Answers (start d q)) ds
      → (r : Option Text × ProjectManager) × (start_dependencies start ds pm ≡ some r)
  unfolding start_dependencies
  start_dependencies-Answers start [] pm a = ((none, pm), refl)
  start_dependencies-Answers start (d ∷ ds) pm a = elim (Bool-cases (is_up d pm)) [
    | inl up ↦
        let (r, e) = start_dependencies-Answers start ds pm a.1 in
        (r, rw (up, start_dependencies) e)
    | inr down ↦
        let ((answer, pm'), e) = a.0 pm in
        elim (Result-cases answer) [
          | inl (p, good) ↦
              let (r, rest) = start_dependencies-Answers start ds pm' a.1 in
              (r, rw (down, e, good, start_dependencies) rest)
          | inr (m, bad) ↦ (
            (some (codes "dependency '" ++ (d ++ (codes "' failed to start: " ++ m))), pm'),
            rw (down, e, bad, start_dependencies) refl,
          )
        ]
  ]

All-map : {P Q : Text → Type 0} → ((d : Text) → P d → Q d) → (ds : List Text) → All P ds → All Q ds
All-map f [] a = tt
All-map f (d ∷ ds) a = (f d a.0, All-map f ds a.1)

-- Every lock that is held is of a name above this one.
abbrev pub IsBelow : (Text → ℕ) → Text → List Text → Type 0
IsBelow rank name held = All (λ h. rank name < rank h) held

holds-IsBelow :
    (rank : Text → ℕ) (name : Text) (held : List Text)
    → IsBelow rank name held
    → holds name held ≡ false
unfolding holds
holds-IsBelow rank name [] below = refl
holds-IsBelow rank name (h ∷ held) below = elim (Bool-cases (str_eq h name)) [
  | inr other ↦ ground (arith, other, holds-IsBelow rank name held below.1)
  | inl same ↦
      let equal : rank h ≡ rank name = ap rank (eq_of_str_eq h name same) in
      absurd (omega (arith, equal, below.0))
]

IsBelow-trans :
    (rank : Text → ℕ) (d name : Text) (held : List Text)
    → rank d < rank name
    → IsBelow rank name held
    → IsBelow rank d held
IsBelow-trans rank d name [] less below = tt
IsBelow-trans rank d name (h ∷ held) less below =
    (omega (arith, less, below.0), IsBelow-trans rank d name held less below.1)

module _ (sys : System) (rank : Text → ℕ)
    (acyclic : (name : Text) (config : ProjectConfig)
      → sys.read_config name ≡ ok config
      → All (λ d. rank d < rank name) config.depends_on) where
  -- Projects whose dependencies go down are started to the end: with more calls than the rank of a
  -- name a start answers, with the project or an error.
  pub start_holding-Answers :
      (fuel : ℕ) (held : List Text) (name : Text) (now : ℕ) (pm : ProjectManager)
      → rank name < fuel
      → IsBelow rank name held
      → Answers (start_holding sys fuel held name now pm)
  unfolding start_holding
  start_holding-Answers zero held name now pm enough below = absurd (omega arith)
  start_holding-Answers (suc fuel) held name now pm enough below =
      let free = holds-IsBelow rank name held below in
      elim (Bool-cases (is_circuit_open name now pm)) [
        | inl opened ↦ (
          (
            err (
                codes "project '"
                ++ (name ++ codes "' has crashed too many times, circuit breaker open")),
            pm,
          ),
          rw (free, opened, start_holding) refl,
        )
        | inr closed ↦ elim (Result-cases (sys.read_config name)) [
          | inr (e, failed) ↦
              ((err e, stop_existing name pm), rw (free, closed, failed, start_holding) refl)
          | inl (config, read) ↦
              let ((error, pm2), started) =
                start_dependencies-Answers sys
                  (λ d pm'. start_holding sys fuel (name ∷ held) d now pm') config.depends_on
                  (stop_existing name pm)
                  (All-map
                    (λ d less q.
                      start_holding-Answers fuel (name ∷ held) d now q (omega (arith, less, enough))
                        (less, IsBelow-trans rank d name held less below))
                    config.depends_on (acyclic name config read)) in
              elim (Option-cases error) [
                | inl fine ↦ (
                  launch_project sys (record config { name = name }) name now pm2,
                  rw (free, closed, read, started, fine, start_holding) refl,
                )
                | inr (e, bad) ↦
                    ((err e, pm2), rw (free, closed, read, started, bad, start_holding) refl)
              ]
        ]
      ]

-- Without dependencies this is StartProject as the manager's other steps have it.
start_holding-start_project :
    (sys : System) (fuel : ℕ) (name : Text) (now : ℕ) (pm : ProjectManager) {config : ProjectConfig}
    → sys.read_config name ≡ ok config
    → config.depends_on ≡ []
    → start_holding sys (suc fuel) [] name now pm ≡ some (start_project sys name now pm)
unfolding start_holding start_project start_closed start_dependencies holds launch_project
start_holding-start_project sys fuel name now pm read free =
    elim (Bool-cases (is_circuit_open name now pm)) [
      | inl opened ↦ rw (opened, start_holding, start_project) refl
      | inr closed ↦
          rw (closed, read, free, start_holding, start_project, start_closed, start_dependencies)
            refl
    ]
