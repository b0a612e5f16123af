-- ===== src/Runtime/Projects/Restarts.antt =====
-- pkg/handlers/project.go: the restarts of a project by its watcher.
use agentry.Base.{
  ℕ, ◌+◌, ◌≡◌, refl, not, ◌&&◌, none, some, List, [], ◌∷◌, arith, Bool-cases, Result-cases, inl,
  inr, Text, ok, ap, sym, ◌∙◌,
}
use agentry.Base.Int.{ℤ}
use agentry.Runtime.Projects.{
  Project, ProjectConfig, ProjectManager, System, second, is_circuit_open, record_crash,
  start_project, start_closed, launch_project, watch_process, stop_project, stop_existing,
  launch_of, restart_delay,
}

module _ (sys : System) where
  launch_project-restart_count :
      (config : ProjectConfig) (name : Text) (now : ℕ) (pm : ProjectManager) {p : Project}
      → (launch_project sys config name now pm).0 ≡ ok p
      → p.restart_count ≡ 0
  unfolding launch_project
  launch_project-restart_count config name now pm {p} h = by_command config.start_command refl
    where
      by_command : (command : List Text) → config.start_command ≡ command → p.restart_count ≡ 0
      by_command [] e = absurd (ground (arith, e, h))
      by_command (cmd ∷ args) e = elim (Result-cases (sys.spawn (launch_of sys config cmd args))) [
        | inl (pid, spawned) ↦ ground (arith, e, spawned, h)
        | inr (m, failed) ↦ absurd (ground (arith, e, failed, h))
      ]

  start_project-restart_count :
      (name : Text) (now : ℕ) (pm : ProjectManager) {p : Project}
      → (start_project sys name now pm).0 ≡ ok p
      → p.restart_count ≡ 0
  unfolding start_project start_closed
  start_project-restart_count name now pm {p} h = elim (Bool-cases (is_circuit_open name now pm)) [
    | inl opened ↦ absurd (ground (arith, opened, h))
    | inr closed ↦ elim (Result-cases (sys.read_config name)) [
      | inr (m, failed) ↦ absurd (ground (arith, closed, failed, h))
      | inl (config, read) ↦
          let launched : (launch_project sys (record config { name = name }) name now
                (stop_existing name pm)).0
              ≡ ok p =
            ground (arith, closed, read, h) in
          launch_project-restart_count (record config { name = name }) name now
            (stop_existing name pm) launched
    ]
  ]

  -- Whatever happened before, the watcher of a project that was started waits one second before it
  -- starts the project again: the wait does not grow with the restarts.
  pub watch_process-start_project :
      (name : Text) (now : ℕ) (pm : ProjectManager) {p : Project}
      → (start_project sys name now pm).0 ≡ ok p
      → (code : ℤ) (later : ℕ) (pm' : ProjectManager) {delay : ℕ}
      → (watch_process sys p code later pm').1 ≡ some delay
      → delay ≡ second
  unfolding watch_process
  watch_process-start_project name now pm {p} h code later pm' {delay} e =
      let fresh = start_project-restart_count name now pm h in
      elim (Bool-cases (
        p.config.auto_restart
        && (not p.manually_stopped
            && not (is_circuit_open p.config.name later (record_crash p.config.name later pm'))))) [
              | inr stays ↦ absurd (ground (arith, stays, e))
              | inl again ↦
                  let waited : restart_delay sys (p.restart_count + 1) ≡ delay =
                    ground (arith, again, e) in
                  sym waited ∙ ap (λ n. restart_delay sys (n + 1)) fresh
            ]

  -- The watcher of a project that was stopped by hand does not start it again, and counts its exit as
  -- a crash all the same.
  pub watch_process-stop_project :
      (p : Project) (code : ℤ) (now : ℕ) (pm : ProjectManager)
      → ((watch_process sys (stop_project p) code now pm).1 ≡ none)
        × ((watch_process sys (stop_project p) code now pm).2 ≡ record_crash p.config.name now pm)
  unfolding watch_process stop_project
  watch_process-stop_project p code now pm = elim (Bool-cases p.config.auto_restart) [
    | inl auto ↦ ground (arith, auto)
    | inr manual ↦ ground (arith, manual)
  ]
