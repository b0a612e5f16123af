-- ===== src/Shell/Background/Lifecycle.antt =====
-- The invariant of pkg/shell/background.go.
use agentry.Base.{
  subst, is_empty, ltb→lt, ℕ, ◌≤◌, ◌<◌, ◌≡◌, refl, sym, ◌∙◌, false, ◌&&◌, ◌||◌, some, List, [], ◌∷◌,
  ltb, Text, Map, lookup, get_elem?, arith, Bool-cases, Option-cases, inl, inr, if_both,
}
use agentry.Shell.Background.{
  new_id, BackgroundManager, new_background_manager, update_at, StartWorld, Started, new_command,
  launch, start, WaitResult, finish, wait_for, mark_interrupted, interrupt, interrupt_all,
  shutdown_all, output, forget, gc_once, bg_max_concurrent,
}
use agentry.Shell.Background.Cells.{
  count_waiting, AllOk, update_at-AllOk, count_waiting-update_at, count_waiting-end,
  count_waiting-snoc, AllOk-snoc, true_false, finish-CellOk, finish-waiting, mark-CellOk,
  mark-waiting,
}

-- The slots in use are the commands waited for, at most as many as the limit, and every cell is
-- sound.
pub record IsSound (m : BackgroundManager) : Type 0 where
  pub slots_eq : m.slots ≡ count_waiting m.heap
  pub slots_le : m.slots ≤ bg_max_concurrent
  pub cells : AllOk m.heap

-- One step of the manager: a call, output of a process, the end of one, or a pass of the collector.
pub data BgStep (m : BackgroundManager) : BackgroundManager → Type 0 where
  starts :
      (w : StartWorld) (command dir : Text) (s : Started) (after : BackgroundManager)
      → start w command dir m ≡ some (s, after)
      → BgStep m after
  ends : (now : ℕ) (result : WaitResult) (a : ℕ) → BgStep m (wait_for now result a m)
  writes : (a : ℕ) (bytes : List ℕ) → BgStep m (output a bytes m)
  interrupts : (id : Text) → BgStep m (interrupt id m).manager
  shuts : BgStep m (shutdown_all m)
  forgets : (id : Text) → BgStep m (forget id m).1
  collects : (now : ℕ) → BgStep m (gc_once now m).1

wait_for-IsSound :
    (now : ℕ) (result : WaitResult) (a : ℕ) (m : BackgroundManager)
    → IsSound m
    → IsSound (wait_for now result a m)
unfolding wait_for
wait_for-IsSound now result a m h = elim (Option-cases (get_elem? m.heap a)) [
  | inl gone ↦ rw (gone, wait_for) h
  | inr (c, found) ↦ elim (Bool-cases c.waiting) [
    | inl waits ↦
        let fewer =
          count_waiting-end a (finish now result) m.heap c found waits
            (finish-waiting now result) in
        rw (found, waits, wait_for)
          (record {
            slots_eq = omega (arith, h.slots_eq, fewer);
            slots_le = omega (arith, h.slots_le);
            cells =
                update_at-AllOk a (finish now result) m.heap (λ d k. finish-CellOk now result d)
                  h.cells;
          })
    | inr over ↦ rw (found, over, wait_for) h
  ]
]

same-IsSound : (m after : BackgroundManager) → after ≡ m → IsSound m → IsSound after
same-IsSound m after e h = subst IsSound (sym e) h

interrupt-IsSound :
    (id : Text) (m : BackgroundManager) → IsSound m → IsSound (interrupt id m).manager
unfolding interrupt
interrupt-IsSound id m h = elim (Option-cases (lookup id m.commands)) [
  | inl unknown ↦
      let same : (interrupt id m).manager ≡ m = ground (arith, unknown) in
      same-IsSound m (interrupt id m).manager same h
  | inr (a, found) ↦
      let marked : BackgroundManager = record m { heap = update_at a mark_interrupted m.heap } in
      let same : (interrupt id m).manager ≡ marked = ground (arith, found) in
      same-IsSound marked (interrupt id m).manager same (record {
        slots_eq =
            h.slots_eq ∙ sym (count_waiting-update_at a mark_interrupted m.heap mark-waiting);
        slots_le = h.slots_le;
        cells = update_at-AllOk a mark_interrupted m.heap mark-CellOk h.cells;
      })
]

interrupt_all-IsSound :
    (entries : Map ℕ) (m : BackgroundManager) → IsSound m → IsSound (interrupt_all entries m)
unfolding interrupt_all
interrupt_all-IsSound [] m h = h
interrupt_all-IsSound ((id, a) ∷ entries) m h =
    interrupt_all-IsSound entries (interrupt id m).manager (interrupt-IsSound id m h)

output-IsSound :
    (a : ℕ) (bytes : List ℕ) (m : BackgroundManager) → IsSound m → IsSound (output a bytes m)
unfolding output
output-IsSound a bytes m h = record {
  slots_eq = h.slots_eq ∙ sym (count_waiting-update_at a _ m.heap (λ c. refl));
  slots_le = h.slots_le;
  cells =
      update_at-AllOk a _ m.heap (λ c k. record { unfinished = k.unfinished; ended = k.ended })
        h.cells;
}

launch-IsSound :
    (w : StartWorld) (command dir : Text) (m : BackgroundManager)
    → IsSound m
    → m.slots < bg_max_concurrent
    → IsSound (launch w command dir m).1
unfolding launch new_command
launch-IsSound w command dir m h room = elim (Option-cases w.spawned) [
  | inl no_process ↦
      rw no_process (record { slots_eq = h.slots_eq; slots_le = h.slots_le; cells = h.cells })
  | inr (pid, spawned) ↦ rw spawned (record {
    slots_eq = omega (
      arith,
      h.slots_eq,
      count_waiting-snoc m.heap
          (new_command (new_id w.random m.id_counter).0 command dir w.now pid),
    );
    slots_le = omega arith;
    cells =
        AllOk-snoc m.heap _ h.cells (record { unfinished = λ e. refl; ended = λ e. true_false e });
  })
]

start_full :
    (w : StartWorld) (command dir : Text) (s : Started) (m after : BackgroundManager)
    → ltb m.slots bg_max_concurrent ≡ false
    → start w command dir m ≡ some (s, after)
    → after ≡ m
unfolding start
start_full w command dir s m after full e = ground arith

start-IsSound :
    (w : StartWorld) (command dir : Text) (s : Started) (m after : BackgroundManager)
    → IsSound m
    → m.slots < bg_max_concurrent
    → start w command dir m ≡ some (s, after)
    → IsSound after
unfolding start
start-IsSound w command dir s m after h room e =
    elim (Bool-cases (is_empty command || (w.ctx_done && w.picks_done))) [
      | inl refused ↦ let same : after ≡ m = ground arith in same-IsSound m after same h
      | inr ready ↦
          let same : after ≡ (launch w command dir m).1 = ground arith in
          same-IsSound (launch w command dir m).1 after same (launch-IsSound w command dir m h room)
    ]

forget-IsSound : (id : Text) (m : BackgroundManager) → IsSound m → IsSound (forget id m).1
unfolding forget
forget-IsSound id m h = record {
  slots_eq = ground (arith, h.slots_eq);
  slots_le = ground (arith, h.slots_le);
  cells = subst AllOk same h.cells;
}
  where
    same : m.heap ≡ (forget id m).1.heap
    same = ground arith

step-IsSound : (m after : BackgroundManager) → IsSound m → BgStep m after → IsSound after
unfolding shutdown_all gc_once
step-IsSound m _ h (starts w command dir s after e) =
    elim (Bool-cases (ltb m.slots bg_max_concurrent)) [
      | inl room ↦ start-IsSound w command dir s m after h (ltb→lt m.slots bg_max_concurrent room) e
      | inr full ↦ same-IsSound m after (start_full w command dir s m after full e) h
    ]
step-IsSound m _ h (ends now result a) = wait_for-IsSound now result a m h
step-IsSound m _ h (writes a bytes) = output-IsSound a bytes m h
step-IsSound m _ h (interrupts id) = interrupt-IsSound id m h
step-IsSound m _ h shuts = if_both IsSound m.stopped h (
    interrupt_all-IsSound m.commands _
      (record { slots_eq = h.slots_eq; slots_le = h.slots_le; cells = h.cells }))
step-IsSound m _ h (forgets id) = forget-IsSound id m h
step-IsSound m _ h (collects now) = record {
  slots_eq = h.slots_eq;
  slots_le = h.slots_le;
  cells = h.cells;
}

-- The states that a new manager comes to.
pub data Reached : BackgroundManager → Type 0 where
  fresh : Reached new_background_manager
  after_step :
      {m : BackgroundManager} {after : BackgroundManager}
      → Reached m
      → BgStep m after
      → Reached after

-- In every state that a manager comes to, by calls, output and ends of processes, passes of the
-- collector and shutdown, as many slots are taken as there are commands waited for, at most
-- thirty-two; no command has an end while it is waited for, and each one that is not waited for has
-- an end and is not running.
pub Reached-IsSound : (m : BackgroundManager) → Reached m → IsSound m
unfolding new_background_manager count_waiting
Reached-IsSound _ fresh = record { slots_eq = refl; slots_le = omega arith; cells = tt }
Reached-IsSound _ (after_step {m} {after} r s) = step-IsSound m after (Reached-IsSound m r) s
