-- ===== src/Shell/Background.antt =====
-- pkg/shell/background.go: supervised background commands. A command is a cell of the heap, and the
-- map of the manager and the goroutine that waits for the process both hold its address; `waiting`
-- says that this goroutine has not returned. A time is a nanosecond count. Start and waitFor are one
-- step each, though neither holds the mutex throughout: Start takes its slot before the process is
-- spawned, and waitFor gives it back after the end is recorded, so the states here are those at the
-- boundaries of whole calls.
pub mod Cells
pub mod Lifecycle
pub mod Finished
use agentry.Base.{
  ℕ, zero, suc, ◌+◌, ◌-◌, ◌*◌, ◌/◌, ◌%◌, ◌≡◌, Bool, true, false, not, ◌&&◌, ◌||◌, Option, none,
  some, List, [], ◌∷◌, ◌++◌, if◌then◌else◌, ltb, leb, ◌==◌, Text, codes, is_empty, Map, lookup,
  insert, delete, length, get_elem?,
}
use agentry.Base.Int.{ℤ, pos, negsuc}
use agentry.Shell.Ring.{Ring, empty_ring, write, read}

abbrev pub bg_ring_size : ℕ
bg_ring_size = 1_048_576

abbrev pub bg_max_concurrent : ℕ
bg_max_concurrent = 32

abbrev pub bg_retention_after_finish : ℕ
bg_retention_after_finish = 30 * 60_000_000_000

pub data BgState : Type 0 where
  running : BgState
  completed : BgState
  failed : BgState
  interrupted : BgState

abbrev pub is_running : BgState → Bool
is_running running = true
is_running _ = false

abbrev pub is_interrupted : BgState → Bool
is_interrupted interrupted = true
is_interrupted _ = false

pub record BgCommand : Type 0 where
  pub id : Text
  pub command : Text
  pub exec_dir : Text
  pub logs : Ring
  pub started_at : ℕ
  pub status : BgState
  pub pid : ℕ
  pub exit_code : ℤ
  pub finished_at : Option ℕ
  pub err : Text
  pub waiting : Bool

pub record BackgroundManager : Type 0 where
  pub heap : List BgCommand
  pub commands : Map ℕ
  pub slots : ℕ
  pub stopped : Bool
  pub id_counter : ℕ

unfoldable pub new_background_manager : BackgroundManager
new_background_manager = record {
  heap = [];
  commands = [];
  slots = 0;
  stopped = false;
  id_counter = 0;
}

-- The cell at an address, changed.
unfoldable pub update_at : ℕ → (BgCommand → BgCommand) → List BgCommand → List BgCommand
update_at a f [] = []
update_at zero f (c ∷ cs) = f c ∷ cs
update_at (suc a) f (c ∷ cs) = c ∷ update_at a f cs

-- `%016x`
unfoldable pub hex_digits : ℕ → ℕ → Text
hex_digits zero n = []
hex_digits (suc places) n =
    let d = n % 16 in hex_digits places (n / 16) ++ ((if ltb d 10 then d + 48 else d + 87) ∷ [])

-- The id, and the counter afterwards; the random bytes in hex are an argument.
unfoldable pub new_id : Option Text → ℕ → Text × ℕ
new_id (some id) counter = (id, counter)
new_id none counter = (codes "seq" ++ hex_digits 16 (counter + 1), counter + 1)

pub data Started : Type 0 where
  started : Text → Started
  start_error : Started

-- What a call takes from elsewhere: whether its context is done, which ready case the select picks,
-- the random bytes, the clock, and the process id or the failure to start.
pub record StartWorld : Type 0 where
  pub ctx_done : Bool
  pub picks_done : Bool
  pub random : Option Text
  pub now : ℕ
  pub spawned : Option ℕ

unfoldable pub new_command : Text → Text → Text → ℕ → ℕ → BgCommand
new_command id command dir now pid = record {
  id = id;
  command = command;
  exec_dir = dir;
  logs = empty_ring bg_ring_size;
  started_at = now;
  status = running;
  pid = pid;
  exit_code = pos 0;
  finished_at = none;
  err = [];
  waiting = true;
}

-- Behind the semaphore: a slot is taken, and given back when the process does not start.
unfoldable pub launch : StartWorld → Text → Text → BackgroundManager → Started × BackgroundManager
launch w command dir m =
    let named = new_id w.random m.id_counter in
    elim w.spawned [
      | none ↦ (
        start_error,
        record {
          heap = m.heap;
          commands = m.commands;
          slots = m.slots;
          stopped = m.stopped;
          id_counter = named.1;
        },
      )
      | some pid ↦ (
        started named.0,
        record {
          heap = m.heap ++ (new_command named.0 command dir w.now pid ∷ []);
          commands = insert named.0 (length m.heap) m.commands;
          slots = m.slots + 1;
          stopped = m.stopped;
          id_counter = named.1;
        },
      )
    ]

-- `none` while the call blocks on the semaphore.
unfoldable pub start :
    StartWorld → Text → Text → BackgroundManager → Option (Started × BackgroundManager)
start w command dir m =
    if is_empty command
    then some (start_error, m)
    else if ltb m.slots bg_max_concurrent && not (w.ctx_done && w.picks_done)
    then some (launch w command dir m)
    else if w.ctx_done
    then some (start_error, m)
    else none

-- What `Wait` returns: nil, an ExitError, or another error.
pub data WaitResult : Type 0 where
  exited : WaitResult
  exit_error : ℤ → Text → WaitResult
  wait_error : Text → WaitResult

unfoldable pub finish : ℕ → WaitResult → BgCommand → BgCommand
finish now exited c = record c {
  finished_at = some now;
  status = completed;
  exit_code = pos 0;
  waiting = false;
}
finish now (exit_error code text) c =
    if is_interrupted c.status
    then record c { finished_at = some now; exit_code = code; waiting = false }
    else record c {
      finished_at = some now;
      exit_code = code;
      status = failed;
      err = text;
      waiting = false;
    }
finish now (wait_error text) c = record c {
  finished_at = some now;
  exit_code = negsuc 0;
  status = failed;
  err = text;
  waiting = false;
}

-- The goroutine of the command at the address; it runs once for each command.
unfoldable pub wait_for : ℕ → WaitResult → ℕ → BackgroundManager → BackgroundManager
wait_for now result a m = elim (get_elem? m.heap a) [
  | none ↦ m
  | some c ↦
      if c.waiting
      then record m { heap = update_at a (finish now result) m.heap; slots = m.slots - 1 }
      else m
]

unfoldable pub command_of : Text → BackgroundManager → Option BgCommand
command_of id m = elim (lookup id m.commands) [ none ↦ none | some a ↦ get_elem? m.heap a ]

unfoldable pub mark_interrupted : BgCommand → BgCommand
mark_interrupted c = if is_running c.status then record c { status = interrupted } else c

-- The signal that is sent, to the process group of a command.
pub record Interrupted : Type 0 where
  pub found : Bool
  pub sigterm : Option ℕ
  pub manager : BackgroundManager

unfoldable pub interrupt : Text → BackgroundManager → Interrupted
interrupt id m = elim (lookup id m.commands) [
  | none ↦ record { found = false; sigterm = none; manager = m }
  | some a ↦ record {
    found = true;
    sigterm = elim (get_elem? m.heap a) [
      | none ↦ none
      | some c ↦ if is_running c.status then some c.pid else none
    ];
    manager = record m { heap = update_at a mark_interrupted m.heap };
  }
]

-- The SIGKILL at the end of the grace period: the process group that it goes to.
unfoldable pub grace_over : ℕ → BackgroundManager → Option ℕ
grace_over a m = elim (get_elem? m.heap a) [
  | none ↦ none
  | some c ↦ elim c.finished_at [ none ↦ if m.stopped then none else some c.pid | some at ↦ none ]
]

unfoldable pub interrupt_all : Map ℕ → BackgroundManager → BackgroundManager
interrupt_all [] m = m
interrupt_all ((id, a) ∷ entries) m = interrupt_all entries (interrupt id m).manager

unfoldable pub shutdown_all : BackgroundManager → BackgroundManager
shutdown_all m = if m.stopped then m else interrupt_all m.commands (record m { stopped = true })

unfoldable pub logs_of : Text → ℤ → BackgroundManager → Option (List ℕ × ℤ × ℤ)
logs_of id cursor m = elim (command_of id m) [ none ↦ none | some c ↦ some (read c.logs cursor) ]

-- The process writes.
unfoldable pub output : ℕ → List ℕ → BackgroundManager → BackgroundManager
output a bytes m = record m {
  heap = update_at a (λ c. record c { logs = (write c.logs bytes).0 }) m.heap;
}

unfoldable pub forget : Text → BackgroundManager → Bool × BackgroundManager
forget id m = elim (command_of id m) [
  | none ↦ (false, m)
  | some c ↦
      if is_running c.status
      then (false, m)
      else (true, record m { commands = delete id m.commands })
]

unfoldable pub is_expired_at : ℕ → BgCommand → Bool
is_expired_at now c = elim c.finished_at [
  | none ↦ false
  | some at ↦ leb (at + bg_retention_after_finish) now
]

-- The loop over the map, which deletes from it, with the number reaped.
unfoldable pub reap : ℕ → List BgCommand → Map ℕ → Map ℕ → Map ℕ × ℕ
reap now heap [] commands = (commands, 0)
reap now heap ((id, a) ∷ entries) commands =
    let rest = reap now heap entries commands in
    elim (get_elem? heap a) [
      | none ↦ rest
      | some c ↦ if is_expired_at now c then (delete id rest.0, rest.1 + 1) else rest
    ]

unfoldable pub gc_once : ℕ → BackgroundManager → ℕ × BackgroundManager
gc_once now m =
    let reaped = reap now m.heap m.commands m.commands in
    (reaped.1, record m { commands = reaped.0 })
