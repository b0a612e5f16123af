-- ===== src/Provisioner/Quiesce/Calls.antt =====
-- pkg/provisioner/deploy_quiesce.go: what is asked of the runtime around a build. The world is the list
-- of the calls that were made, and the runtime answers each as it likes.
use mathlib.Core.List.{append-nil, append_assoc}
use agentry.Base.{
  ℕ, ◌≡◌, refl, sym, ap, ◌∙◌, inl, inr, Bool, true, false, ◌&&◌, ◌||◌, Option, none, some, List, [],
  ◌∷◌, ◌++◌, ◌==◌, arith, if◌then◌else◌, Bool-cases, Text, codes, str_eq, base_name, Result, ok,
  err, Result-cases, ◌⊎◌, decimal,
}
use agentry.Provisioner.Backend.{Backend}
use agentry.Provisioner.Quiesce.{
  RuntimeProject, ProjectApi, is_reachable, runtime_project_list, runtime_project_action,
  pause_each, pause_projects_at, resume_projects,
}

pub record Asked : Type 0 where
  pub verb : Text
  pub name : Text

-- The runtime lists these projects, and its answer to a verb for a name is `answers`.
abbrev pub logged : List RuntimeProject → (Text → Text → Result ℕ) → ProjectApi (List Asked)
logged projects answers = record {
  list_projects = λ id w. ok (200, ok projects);
  project_action =
      λ id verb name w. (answers verb name, w ++ record { verb = verb; name = name } ∷ []);
}

abbrev accepted : Result ℕ → Bool
accepted (ok status) = status == 200
accepted (err e) = false

-- The names of the running projects whose files a build of the path reads: all of them, or the one
-- that the path ends in.
abbrev pub read_by : Text → List RuntimeProject → List Text
read_by path [] = []
read_by path (p ∷ ps) =
    let rest = read_by path ps in
    if str_eq p.status (codes "running")
      && (str_eq path (codes "/workspace") || str_eq p.name (base_name path))
    then p.name ∷ rest
    else rest

-- Those of the names whose stop is accepted.
abbrev pub stopped : (Text → Text → Result ℕ) → List Text → List Text
stopped answers [] = []
stopped answers (n ∷ ns) =
    let rest = stopped answers ns in if accepted (answers (codes "stop") n) then n ∷ rest else rest

abbrev pub calls : Text → List Text → List Asked
calls verb [] = []
calls verb (n ∷ ns) = record { verb = verb; name = n } ∷ calls verb ns

module _ (backend : Backend (List Asked)) (projects : List RuntimeProject)
    (answers : Text → Text → Result ℕ) (id : Text)
    (reachable : (w : List Asked)
      → is_reachable backend (logged projects answers) id w ≡ true) where
  abbrev after : Text → Text → List Asked → List Asked
  after verb name w = w ++ record { verb = verb; name = name } ∷ []

  abbrev did : Text → Text → List Asked → Option Text × List Asked
  did verb name w = runtime_project_action backend (logged projects answers) id verb name w

  action-cases :
      (verb name : Text) (w : List Asked)
      → ((accepted (answers verb name) ≡ true) × (did verb name w ≡ (none, after verb name w)))
        ⊎ ((e : Text) × (accepted (answers verb name) ≡ false)
            × (did verb name w ≡ (some e, after verb name w)))
  unfolding runtime_project_action
  action-cases verb name w = elim (Result-cases (answers verb name)) [
    | inr (e, failed) ↦ inr (e, rw failed refl, rw (reachable w, failed) refl)
    | inl (status, answered) ↦ elim (Bool-cases (status == 200)) [
      | inl good ↦ inl (rw (answered, good) refl, rw (reachable w, answered, good) refl)
      | inr bad ↦ inr (
        codes "project " ++ (verb ++ (codes " status " ++ decimal status)),
        rw (answered, bad) refl,
        rw (reachable w, answered, bad) refl,
      )
    ]
  ]

  action-world : (verb name : Text) (w : List Asked) → (did verb name w).1 ≡ after verb name w
  action-world verb name w = elim (action-cases verb name w) [
    | inl (good, made) ↦ ap (λ r. r.1) made
    | inr (e, bad, made) ↦ ap (λ r. r.1) made
  ]

  pause_each-calls :
      (path : Text) (ps : List RuntimeProject) (w : List Asked)
      → pause_each backend (logged projects answers) id path ps w
        ≡ (stopped answers (read_by path ps), w ++ calls (codes "stop") (read_by path ps))
  unfolding pause_each
  pause_each-calls path [] w = ap (λ l. ([], l)) (sym (append-nil w))
  pause_each-calls path (p ∷ ps) w =
      let stop : Asked = record { verb = codes "stop"; name = p.name } in
      let rest = pause_each-calls path ps (after (codes "stop") p.name w) in
      let grouped = append_assoc w (stop ∷ []) (calls (codes "stop") (read_by path ps)) in
      elim (Bool-cases (
        str_eq p.status (codes "running")
        && (str_eq path (codes "/workspace") || str_eq p.name (base_name path)))) [
          | inr other ↦ ground (arith, other, pause_each-calls path ps w)
          | inl read ↦ elim (action-cases (codes "stop") p.name w) [
            | inl (good, made) ↦ ground (arith, read, made, rest, good, grouped)
            | inr (e, bad, made) ↦ ground (arith, read, made, rest, bad, grouped)
          ]
        ]

  resume_projects-calls :
      (ns : List Text) (w : List Asked)
      → resume_projects backend (logged projects answers) id ns w ≡ w ++ calls (codes "start") ns
  unfolding resume_projects
  resume_projects-calls [] w = sym (append-nil w)
  resume_projects-calls (n ∷ ns) w = rw (action-world (codes "start") n w) (
      resume_projects-calls ns (after (codes "start") n w)
      ∙ append_assoc w _ (calls (codes "start") ns))

  -- Around a build in a reachable sandbox, whatever the runtime answers to a verb and a name, each
  -- running project whose files the build reads, and no other, is asked once to stop, in the order of the list; the ones that
  -- the pause names are those whose stop was answered with 200; and these, and no other, are asked
  -- once to start when they are resumed.
  pub resume_projects-pause_projects_at :
      (path : Text)
      → let paused = pause_projects_at backend (logged projects answers) id path [] in
        (paused.0 ≡ stopped answers (read_by path projects))
        × (resume_projects backend (logged projects answers) id paused.0 paused.1
            ≡ calls (codes "stop") (read_by path projects)
              ++ calls (codes "start") (stopped answers (read_by path projects)))
  unfolding pause_projects_at runtime_project_list
  resume_projects-pause_projects_at path =
      let paused : pause_projects_at backend (logged projects answers) id path [] ≡ (
        stopped answers (read_by path projects),
        calls (codes "stop") (read_by path projects),
      ) =
        rw (reachable [], pause_projects_at) (pause_each-calls path projects []) in
      rw paused (refl, resume_projects-calls (stopped answers (read_by path projects)) _)
