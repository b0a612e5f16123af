-- ===== src/Runtime/Projects.antt =====
-- pkg/handlers/project.go: the manager of a sandbox's projects. A step is what runs under the lock of
-- one project's name; a time is a nanosecond count, and a test against `now - window` is written
-- `t + window`. The projects that a project depends on are started before the steps here.
pub mod Breaker
pub mod Restarts
pub mod Dependencies
use agentry.Base.{
  ℕ, zero, suc, ◌+◌, ◌-◌, ◌*◌, ◌^◌, ◌≤◌, ◌<◌, min, ◌≡◌, Bool, true, false, not, ◌&&◌, ◌||◌, Option,
  none, some, List, [], ◌∷◌, ◌++◌, ltb, leb, ◌==◌, if◌then◌else◌, Text, codes, str_eq, decimal, Map,
  lookup, insert, length, drop, Result, ok, err,
}
use agentry.Base.Int.{ℤ, pos, negsuc}
use agentry.Runtime.Sidecar.{Launch, maybe_wrap_auth_sidecar}

abbrev pub max_log_lines : ℕ
max_log_lines = 500

abbrev pub max_crashes_in_window : ℕ
max_crashes_in_window = 5

abbrev pub second : ℕ
second = 1_000_000_000

abbrev pub crash_window : ℕ
crash_window = 60 * second

pub data Status : Type 0 where
  starting running stopped failed : Status

pub data Health : Type 0 where
  unknown healthy unhealthy : Health

-- models.ProjectConfig, with the fields that the steps read; the name is set by the manager.
pub record ProjectConfig : Type 0 where
  pub name : Text
  pub start_command : List Text
  pub auto_restart : Bool
  pub depends_on : List Text

pub record Project : Type 0 where
  pub config : ProjectConfig
  pub status : Status
  pub pid : ℕ
  pub started_at : ℕ
  pub restart_count : ℕ
  pub last_error : Text
  pub logs : List Text
  pub health : Health
  pub manually_stopped : Bool
  pub internal_port : ℕ

pub record ProjectManager : Type 0 where
  pub projects : Map Project
  pub crash_states : Map (List ℕ)

unfoldable pub new_project_manager : ProjectManager
new_project_manager = record { projects = []; crash_states = [] }

-- The crashes of a name, none for a name that is not there.
unfoldable pub crashes_of : Text → ProjectManager → List ℕ
crashes_of name pm = elim (lookup name pm.crash_states) [ none ↦ [] | some ts ↦ ts ]

-- `t.After(now - window)`
unfoldable pub recent_crashes : ℕ → List ℕ → List ℕ
recent_crashes now [] = []
recent_crashes now (t ∷ ts) =
    let rest = recent_crashes now ts in if ltb now (t + crash_window) then t ∷ rest else rest

unfoldable pub is_circuit_open : Text → ℕ → ProjectManager → Bool
unfolding recent_crashes crashes_of
is_circuit_open name now pm =
    leb max_crashes_in_window (length (recent_crashes now (crashes_of name pm)))

unfoldable pub record_crash : Text → ℕ → ProjectManager → ProjectManager
unfolding recent_crashes crashes_of
record_crash name now pm = record pm {
  crash_states = insert name (recent_crashes now (crashes_of name pm ++ now ∷ [])) pm.crash_states;
}

-- stopProject, after its two signals: the process is gone, and its watcher has yet to see it.
unfoldable pub stop_project : Project → Project
stop_project p = record p { status = stopped; manually_stopped = true }

abbrev pub is_running : Status → Bool
is_running running = true
is_running _ = false

unfoldable pub put_project : Text → Project → ProjectManager → ProjectManager
put_project name p pm = record pm { projects = insert name p pm.projects }

-- A project that runs is stopped before it is started anew.
unfoldable pub stop_existing : Text → ProjectManager → ProjectManager
unfolding stop_project put_project
stop_existing name pm = elim (lookup name pm.projects) [
  | none ↦ pm
  | some p ↦ if is_running p.status then put_project name (stop_project p) pm else pm
]

-- What the system answers: the manifest of a name, the environment with the project's own entries,
-- whether the authproxy is installed, and the process id of a command, or the error.
pub record System : Type 0 where
  pub read_config : Text → Result ProjectConfig
  pub environment : ProjectConfig → List Text
  pub installed : Bool
  pub spawn : Launch → Result ℕ

module _ (sys : System) where
  abbrev new_project : ProjectConfig → ℕ → ℕ → ℕ → Project
  new_project config pid now internal_port = record {
    config = config;
    status = running;
    pid = pid;
    started_at = now;
    restart_count = 0;
    last_error = [];
    logs = [];
    health = unknown;
    manually_stopped = false;
    internal_port = internal_port;
  }

  abbrev launch_of : ProjectConfig → Text → List Text → Launch
  launch_of config cmd args =
      maybe_wrap_auth_sidecar sys.installed cmd args (sys.environment config)

  unfoldable pub launch_project :
      ProjectConfig → Text → ℕ → ProjectManager → Result Project × ProjectManager
  launch_project config name now pm = elim config.start_command [
    | [] ↦ (err (codes "start_command is required"), pm)
    | cmd ∷ args ↦ elim (sys.spawn (launch_of config cmd args)) [
      | err e ↦ (err (codes "failed to start: " ++ e), pm)
      | ok pid ↦
          let p = new_project config pid now (launch_of config cmd args).internal_port in
          (ok p, put_project name p pm)
    ]
  ]

  -- StartProject behind its breaker, without the projects that it depends on.
  unfoldable pub start_closed : Text → ℕ → ProjectManager → Result Project × ProjectManager
  start_closed name now pm =
      let pm1 = stop_existing name pm in
      elim (sys.read_config name) [
        | err e ↦ (err e, pm1)
        | ok config ↦ launch_project (record config { name = name }) name now pm1
      ]

  unfoldable pub start_project : Text → ℕ → ProjectManager → Result Project × ProjectManager
  start_project name now pm =
      if is_circuit_open name now pm
      then (
        err (
            codes "project '"
            ++ (name ++ codes "' has crashed too many times, circuit breaker open")),
        pm,
      )
      else start_closed name now pm

  abbrev is_success : ℤ → Bool
  is_success (pos n) = n == 0
  is_success (negsuc n) = false

  abbrev decimal_int : ℤ → Text
  decimal_int (pos n) = decimal n
  decimal_int (negsuc n) = codes "-" ++ decimal (n + 1)

  -- 1 << min(restartCount-1, 4) seconds
  abbrev pub restart_delay : ℕ → ℕ
  restart_delay restart_count = 2 ^ min (restart_count - 1) 4 * second

  -- The status that watchProcess writes at the exit of its process, whose code is -1 if a signal
  -- ended it.
  unfoldable pub exited : ℤ → Project → Project
  exited code p =
      if is_success code
      then record p { status = stopped }
      else record p { status = failed; last_error = codes "exit code " ++ decimal_int code }

  -- The watcher's own project, of which the map may hold a later one. It answers with the time to
  -- wait before the restart, if there is one.
  unfoldable pub watch_process :
      Project → ℤ → ℕ → ProjectManager → Project × Option ℕ × ProjectManager
  watch_process p code now pm =
      let pm1 = record_crash p.config.name now pm in
      let q : Project = record (exited code p) { restart_count = p.restart_count + 1 } in
      if p.config.auto_restart
        && (not p.manually_stopped && not (is_circuit_open p.config.name now pm1))
      then (q, some (restart_delay q.restart_count), pm1)
      else (exited code p, none, pm1)

  -- What the watcher does after the wait.
  unfoldable pub restart : Project → ℕ → ProjectManager → Project × ProjectManager
  restart p now pm =
      let (answer, pm') = start_project p.config.name now pm in
      elim answer [
        | ok q ↦ (p, pm')
        | err e ↦
            (record p { status = failed; last_error = codes "auto-restart failed: " ++ e }, pm')
      ]

unfoldable pub stop_named : Text → ProjectManager → Option Text × ProjectManager
unfolding stop_project put_project
stop_named name pm = elim (lookup name pm.projects) [
  | none ↦ (some (codes "project '" ++ (name ++ codes "' not found")), pm)
  | some p ↦ (none, put_project name (stop_project p) pm)
]

-- captureOutput, for one line.
unfoldable pub capture_line : Text → Project → Project
capture_line l p =
    let logs = p.logs ++ l ∷ [] in
    record p {
      logs =
          if ltb max_log_lines (length logs) then drop (length logs - max_log_lines) logs else logs;
    }

-- GetLogs, zero asking for all lines.
unfoldable pub get_logs : Text → ℕ → ProjectManager → Result (List Text)
get_logs name lines pm = elim (lookup name pm.projects) [
  | none ↦ err (codes "project '" ++ (name ++ codes "' not found"))
  | some p ↦
      let n = if lines == 0 || ltb (length p.logs) lines then length p.logs else lines in
      ok (drop (length p.logs - n) p.logs)
]

-- The process groups of the running projects.
unfoldable pub running_pgids : Map Project → List ℕ
running_pgids [] = []
running_pgids ((name, p) ∷ ps) =
    let rest = running_pgids ps in if is_running p.status && ltb 0 p.pid then p.pid ∷ rest else rest

-- One tick of healthCheckLoop: the failures in a row, and the health; `answered` is whether there
-- was an answer below 500.
unfoldable pub health_tick : ℕ → Bool → ℕ × Project → ℕ × Project
health_tick retries answered (failures, p) =
    if is_running p.status
    then if answered
      then (0, record p { health = healthy })
      else (failures + 1, if leb retries (failures + 1) then record p { health = unhealthy } else p)
    else (failures, p)
