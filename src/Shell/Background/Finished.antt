-- ===== src/Shell/Background/Finished.antt =====
-- A background command of pkg/shell/background.go that has ended keeps its end.
use agentry.Base.{
  ℕ, zero, suc, ◌≡◌, refl, sym, ap, subst, ◌≢◌, ◌∙◌, true, false, some, List, [], ◌∷◌, ◌++◌, Text,
  Map, lookup, get_elem?, arith, Bool-cases, Option-cases, inl, inr,
}
use agentry.Shell.Background.{
  new_id, is_running, BgCommand, BackgroundManager, update_at, StartWorld, Started, start, launch,
  new_command, WaitResult, finish, wait_for, mark_interrupted, interrupt, interrupt_all,
  shutdown_all, output, forget, gc_once,
}
use agentry.Shell.Background.Cells.{CellOk, AllOk}
use agentry.Shell.Background.Lifecycle.{
  IsSound, BgStep, starts, ends, writes, interrupts, shuts, forgets, collects,
}

-- `d` reports the same end as `c`.
pub record SameEnd (c d : BgCommand) : Type 0 where
  pub status_eq : d.status ≡ c.status
  pub exit_eq : d.exit_code ≡ c.exit_code
  pub time_eq : d.finished_at ≡ c.finished_at
  pub err_eq : d.err ≡ c.err

-- The command at the address is still there, with the same end.
abbrev pub Keeps : ℕ → BgCommand → List BgCommand → Type 0
Keeps a c heap = (d : BgCommand) × (get_elem? heap a ≡ some d) × SameEnd c d

SameEnd-self : (c : BgCommand) → SameEnd c c
SameEnd-self c = record { status_eq = refl; exit_eq = refl; time_eq = refl; err_eq = refl }

AllOk-at :
    (cs : List BgCommand) (a : ℕ) (c : BgCommand) → AllOk cs → get_elem? cs a ≡ some c → CellOk c
AllOk-at [] a c h e = absurd (ground arith)
AllOk-at (d ∷ cs) zero c h e = let same : d ≡ c = ground arith in subst CellOk same h.0
AllOk-at (d ∷ cs) (suc a) c h e = AllOk-at cs a c h.1 (ground arith)

Keeps-update_at :
    (a b : ℕ) (f : BgCommand → BgCommand) (cs : List BgCommand) (c : BgCommand)
    → get_elem? cs a ≡ some c
    → (b ≡ a → SameEnd c (f c))
    → Keeps a c (update_at b f cs)
unfolding update_at
Keeps-update_at a b f [] c e k = absurd (ground arith)
Keeps-update_at zero zero f (d ∷ cs) c e k =
    let same : d ≡ c = ground arith in (f c, ap (λ x. some (f x)) same, k refl)
Keeps-update_at zero (suc b) f (d ∷ cs) c e k = (c, e, SameEnd-self c)
Keeps-update_at (suc a) zero f (d ∷ cs) c e k = (c, e, SameEnd-self c)
Keeps-update_at (suc a) (suc b) f (d ∷ cs) c e k = Keeps-update_at a b f cs c e (λ q. k (ap suc q))

mark-SameEnd : (c : BgCommand) → is_running c.status ≡ false → SameEnd c (mark_interrupted c)
unfolding mark_interrupted
mark-SameEnd c h = rw h (SameEnd-self c)

interrupt-Keeps :
    (id : Text) (m : BackgroundManager) (a : ℕ) (c : BgCommand)
    → get_elem? m.heap a ≡ some c
    → is_running c.status ≡ false
    → Keeps a c (interrupt id m).manager.heap
unfolding interrupt
interrupt-Keeps id m a c e off = elim (Option-cases (lookup id m.commands)) [
  | inl unknown ↦
      let same : (interrupt id m).manager.heap ≡ m.heap = ground (arith, unknown) in
      rw same (c, e, SameEnd-self c)
  | inr (b, found) ↦
      let same : (interrupt id m).manager.heap ≡ update_at b mark_interrupted m.heap =
        ground (arith, found) in
      rw same (Keeps-update_at a b mark_interrupted m.heap c e (λ q. mark-SameEnd c off))
]

SameEnd-trans : (c d e : BgCommand) → SameEnd c d → SameEnd d e → SameEnd c e
SameEnd-trans c d e h k = record {
  status_eq = k.status_eq ∙ h.status_eq;
  exit_eq = k.exit_eq ∙ h.exit_eq;
  time_eq = k.time_eq ∙ h.time_eq;
  err_eq = k.err_eq ∙ h.err_eq;
}

interrupt_all-Keeps :
    (entries : Map ℕ) (m : BackgroundManager) (a : ℕ) (c : BgCommand)
    → get_elem? m.heap a ≡ some c
    → is_running c.status ≡ false
    → Keeps a c (interrupt_all entries m).heap
unfolding interrupt_all
interrupt_all-Keeps [] m a c e off = (c, e, SameEnd-self c)
interrupt_all-Keeps ((id, b) ∷ entries) m a c e off =
    let first = interrupt-Keeps id m a c e off in
    let rest =
      interrupt_all-Keeps entries (interrupt id m).manager a first.0 first.1
        (ground (arith, first.2.status_eq, off)) in
    (rest.0, rest.1, SameEnd-trans c first.0 rest.0 first.2 rest.2)

wait_for-Keeps :
    (now : ℕ) (result : WaitResult) (b : ℕ) (m : BackgroundManager) (a : ℕ) (c : BgCommand)
    → get_elem? m.heap a ≡ some c
    → c.waiting ≡ false
    → Keeps a c (wait_for now result b m).heap
unfolding wait_for
wait_for-Keeps now result b m a c e over = elim (Option-cases (get_elem? m.heap b)) [
  | inl gone ↦
      let same : (wait_for now result b m).heap ≡ m.heap = ground (arith, gone) in
      rw same (c, e, SameEnd-self c)
  | inr (d, found) ↦ elim (Bool-cases d.waiting) [
    | inr idle ↦
        let same : (wait_for now result b m).heap ≡ m.heap = ground (arith, found, idle) in
        rw same (c, e, SameEnd-self c)
    | inl waits ↦
        let same : (wait_for now result b m).heap ≡ update_at b (finish now result) m.heap =
          ground (arith, found, waits) in
        let apart : b ≢ a = λ q.
          let one : d ≡ c = ground (arith, sym found, ap (get_elem? m.heap) q, e) in
          ground (arith, ap (λ x. x.waiting) one, waits, over) in
        rw same (Keeps-update_at a b (finish now result) m.heap c e (λ q. absurd (apart q)))
  ]
]

get_elem?-some-append :
    (xs ys : List BgCommand) (a : ℕ) (c : BgCommand)
    → get_elem? xs a ≡ some c
    → get_elem? (xs ++ ys) a ≡ some c
get_elem?-some-append [] ys a c e = absurd (ground arith)
get_elem?-some-append (x ∷ xs) ys zero c e = e
get_elem?-some-append (x ∷ xs) ys (suc a) c e = get_elem?-some-append xs ys a c e

start-Keeps :
    (w : StartWorld) (command dir : Text) (s : Started) (m after : BackgroundManager) (a : ℕ)
    (c : BgCommand)
    → start w command dir m ≡ some (s, after)
    → get_elem? m.heap a ≡ some c
    → Keeps a c after.heap
unfolding start launch
start-Keeps w command dir s m after a c h e =
    let more : (x : BgCommand) → get_elem? (m.heap ++ (x ∷ [])) a ≡ some c =
      λ x. get_elem?-some-append m.heap (x ∷ []) a c e in
    let kept : get_elem? after.heap a ≡ some c = elim (Option-cases w.spawned) [
      | inl no_process ↦ ground (arith, no_process)
      | inr (pid, spawned) ↦ ground (
        arith,
        spawned,
        more (new_command (new_id w.random m.id_counter).0 command dir w.now pid),
      )
    ] in
    (c, kept, SameEnd-self c)

-- A command that has ended keeps its status, exit code, time and error for good, whatever happens:
-- no later interrupt, shutdown or end of another process changes what is reported of it.
pub step-Keeps :
    (m after : BackgroundManager) (a : ℕ) (c : BgCommand)
    → IsSound m
    → BgStep m after
    → get_elem? m.heap a ≡ some c
    → c.waiting ≡ false
    → Keeps a c after.heap
unfolding gc_once output shutdown_all forget
step-Keeps m _ a c h (starts w command dir s after e) found over =
    start-Keeps w command dir s m after a c e found
step-Keeps m _ a c h (ends now result b) found over = wait_for-Keeps now result b m a c found over
step-Keeps m _ a c h (writes b bytes) found over =
    Keeps-update_at a b _ m.heap c found
      (λ q. record { status_eq = refl; exit_eq = refl; time_eq = refl; err_eq = refl })
step-Keeps m _ a c h (interrupts id) found over =
    interrupt-Keeps id m a c found ((AllOk-at m.heap a c h.cells found).ended over).1
step-Keeps m _ a c h shuts found over = elim (Bool-cases m.stopped) [
  | inl twice ↦
      let same : (shutdown_all m).heap ≡ m.heap = ground (arith, twice) in
      rw same (c, found, SameEnd-self c)
  | inr once ↦
      let stopping : BackgroundManager = record m { stopped = true } in
      let same : (shutdown_all m).heap ≡ (interrupt_all m.commands stopping).heap =
        ground (arith, once) in
      rw same (
        interrupt_all-Keeps m.commands stopping a c found
          ((AllOk-at m.heap a c h.cells found).ended over).1)
]
step-Keeps m _ a c h (forgets id) found over =
    let same : (forget id m).1.heap ≡ m.heap = ground arith in rw same (c, found, SameEnd-self c)
step-Keeps m _ a c h (collects now) found over = (c, found, SameEnd-self c)
