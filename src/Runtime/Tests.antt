-- ===== src/Runtime/Tests.antt =====
-- Runs of pkg/handlers at concrete inputs, and the instances of its theorems there.
use agentry.Base.{
  if◌then◌else◌, str_eq, ok_inj, subst, Bool-cases, inl, inr, ◌<◌, ℕ, ◌+◌, ◌*◌, ◌≤◌, ◌≡◌, refl,
  Bool, true, false, Option, none, some, List, [], ◌∷◌, ◌++◌, arith, leb, Text, codes, All, Result,
  ok, err, length, is_empty, contains_byte,
}
use agentry.Base.Int.{pos}
use agentry.Runtime.Sidecar.{join_authproxy_exec, child_argv}
use agentry.Runtime.Projects.{
  Project, ProjectConfig, ProjectManager, System, second, start_project, watch_process,
  new_project_manager, running, unknown, is_circuit_open, max_crashes_in_window,
}
use agentry.Runtime.Projects.Breaker.{after_crashes, is_circuit_open-after_crashes}
use agentry.Runtime.Projects.Dependencies.{start_holding}
use agentry.Runtime.Projects.Dependencies.Starts.{
  Answers, start_holding-Answers, start_holding_self,
}
use agentry.Runtime.Projects.Restarts.{watch_process-start_project}

abbrev command : List Text
command = codes "python" ∷ codes "my app.py" ∷ []

-- The line feed at the end of the last word is lost.
line_feed_lost :
    child_argv (join_authproxy_exec (codes "printf" ∷ codes "x\n" ∷ []))
    ≡ ok (codes "printf" ∷ codes "x" ∷ [])
unfolding child_argv join_authproxy_exec agentry.Runtime.Sidecar.exec_parts
    agentry.Runtime.Sidecar.exec_part agentry.Runtime.Sidecar.without_quotes contains_byte
    agentry.Base.trim_space agentry.Base.join is_empty agentry.Runtime.Sidecar.split_argv
line_feed_lost = refl

abbrev web : ProjectConfig
web = record {
  name = codes "web";
  start_command = codes "serve" ∷ [];
  auto_restart = true;
  depends_on = [];
}

-- Each name is the project `web`, and each command starts as process 7.
abbrev sys : System
sys = record {
  read_config = λ name. ok web;
  environment = λ config. [];
  installed = false;
  spawn = λ launch. ok 7;
}

abbrev exits : List ℕ
exits = 1 * second ∷ 2 * second ∷ 3 * second ∷ 4 * second ∷ 5 * second ∷ []

abbrev crashed : ProjectManager
crashed = after_crashes (codes "web") exits new_project_manager

is_circuit_open-after_crashes_example :
    (is_circuit_open (codes "web") (6 * second) crashed ≡ true)
    × (start_project sys (codes "web") (6 * second) crashed ≡ (
      err (
          codes "project '"
          ++ (codes "web" ++ codes "' has crashed too many times, circuit breaker open")),
      crashed,
    ))
    × (is_circuit_open (codes "web") (65 * second) crashed ≡ false)
unfolding new_project_manager agentry.Base.lookup agentry.Runtime.Projects.crashes_of
is_circuit_open-after_crashes_example =
    is_circuit_open-after_crashes sys (codes "web") (6 * second) (65 * second) exits
      new_project_manager refl
      (
        omega arith,
        omega arith,
        (
          omega arith,
          omega arith,
          (omega arith, omega arith, (omega arith, omega arith, (omega arith, omega arith, tt))),
        ),
      )
      (omega arith, (omega arith, (omega arith, (omega arith, (omega arith, tt)))))

-- The project after it was started at the time 0.
abbrev started : Project
started = record {
  config = web;
  status = running;
  pid = 7;
  started_at = 0;
  restart_count = 0;
  last_error = [];
  logs = [];
  health = unknown;
  manually_stopped = false;
  internal_port = 0;
}

starts : (start_project sys (codes "web") 0 new_project_manager).0 ≡ ok started
unfolding start_project agentry.Runtime.Projects.start_closed is_circuit_open agentry.Base.lookup
    new_project_manager agentry.Runtime.Projects.launch_project
    agentry.Runtime.Sidecar.maybe_wrap_auth_sidecar
starts = refl

restarts : (watch_process sys started (pos 1) second new_project_manager).1 ≡ some second
unfolding watch_process new_project_manager is_circuit_open agentry.Runtime.Projects.record_crash
    agentry.Base.lookup agentry.Base.insert agentry.Base.str_eq agentry.Base.delete
restarts = refl

watch_process-start_project_example : 1_000_000_000 ≡ second
watch_process-start_project_example =
    watch_process-start_project sys (codes "web") 0 new_project_manager starts (pos 1) second
      new_project_manager restarts

-- The project `web` needs `db`, and `loop` needs itself.
abbrev needing : Text → List Text → ProjectConfig
needing name names = record {
  name = name;
  start_command = codes "serve" ∷ [];
  auto_restart = false;
  depends_on = names;
}

abbrev db_first : System
db_first = record {
  read_config =
      λ name. ok (needing name (if str_eq name (codes "web") then codes "db" ∷ [] else []));
  environment = λ config. [];
  installed = false;
  spawn = λ launch. ok 7;
}

abbrev depth : Text → ℕ
depth name = if str_eq name (codes "web") then 1 else 0

db_first-depth :
    (name : Text) (config : ProjectConfig)
    → db_first.read_config name ≡ ok config
    → All (λ d. depth d < depth name) config.depends_on
db_first-depth name config read =
    subst (λ c. All (λ d. depth d < depth name) c.depends_on) (ok_inj read)
      (elim (Bool-cases (str_eq name (codes "web"))) [
        | inl web ↦ rw web (unfold str_eq in omega arith, tt)
        | inr other ↦ rw other tt
      ])

start_holding-Answers_example :
    Answers (start_holding db_first 2 [] (codes "web") 0 new_project_manager)
start_holding-Answers_example =
    start_holding-Answers db_first depth db_first-depth 2 [] (codes "web") 0 new_project_manager
      (unfold str_eq in omega arith) tt

abbrev to_itself : System
to_itself = record {
  read_config = λ name. ok (needing name (name ∷ []));
  environment = λ config. [];
  installed = false;
  spawn = λ launch. ok 7;
}

start_holding_self_example :
    start_holding to_itself 100 [] (codes "loop") 0 new_project_manager ≡ none
unfolding new_project_manager is_circuit_open agentry.Base.lookup
start_holding_self_example =
    start_holding_self to_itself 100 [] (codes "loop") 0 new_project_manager refl refl refl
