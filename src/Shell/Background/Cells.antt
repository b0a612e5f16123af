-- ===== src/Shell/Background/Cells.antt =====
-- Counts and facts on the cells of pkg/shell/background.go.
use agentry.Base.{
  ℕ, zero, suc, ◌+◌, ◌≡◌, refl, sym, ◌≢◌, true, false, none, some, List, [], ◌∷◌, ◌++◌,
  if◌then◌else◌, get_elem?, arith, Bool-cases, inl, inr,
}
use agentry.Shell.Background.{
  is_interrupted, BgState, running, completed, failed, interrupted, is_running, BgCommand,
  update_at, WaitResult, exited, exit_error, wait_error, finish, mark_interrupted,
}

-- The commands whose goroutine has not returned.
unfoldable pub count_waiting : List BgCommand → ℕ
count_waiting [] = 0
count_waiting (c ∷ cs) = (if c.waiting then 1 else 0) + count_waiting cs

-- A goroutine waits exactly while the command has no end, and a running command has one.
pub record CellOk (c : BgCommand) : Type 0 where
  pub unfinished : (c.waiting ≡ true) → c.finished_at ≡ none
  pub ended : (c.waiting ≡ false) → (c.finished_at ≢ none) × (is_running c.status ≡ false)

abbrev pub AllOk : List BgCommand → Type 0
AllOk [] = Unit
AllOk (c ∷ cs) = CellOk c × AllOk cs

pub update_at-AllOk :
    (a : ℕ) (f : BgCommand → BgCommand) (cs : List BgCommand)
    → ((c : BgCommand) → CellOk c → CellOk (f c))
    → AllOk cs
    → AllOk (update_at a f cs)
unfolding update_at
update_at-AllOk a f [] k h = tt
update_at-AllOk zero f (c ∷ cs) k h = (k c h.0, h.1)
update_at-AllOk (suc a) f (c ∷ cs) k h = (h.0, update_at-AllOk a f cs k h.1)

pub count_waiting-update_at :
    (a : ℕ) (f : BgCommand → BgCommand) (cs : List BgCommand)
    → ((c : BgCommand) → (f c).waiting ≡ c.waiting)
    → count_waiting (update_at a f cs) ≡ count_waiting cs
unfolding update_at count_waiting
count_waiting-update_at a f [] k = refl
count_waiting-update_at zero f (c ∷ cs) k = ground (arith, k c)
count_waiting-update_at (suc a) f (c ∷ cs) k = ground (arith, count_waiting-update_at a f cs k)

-- The end of a waiting command takes one away.
pub count_waiting-end :
    (a : ℕ) (f : BgCommand → BgCommand) (cs : List BgCommand) (c : BgCommand)
    → get_elem? cs a ≡ some c
    → c.waiting ≡ true
    → ((d : BgCommand) → (f d).waiting ≡ false)
    → count_waiting cs ≡ count_waiting (update_at a f cs) + 1
unfolding update_at count_waiting
count_waiting-end a f [] c e w k = ground arith
count_waiting-end zero f (d ∷ cs) c e w k = ground (arith, k d)
count_waiting-end (suc a) f (d ∷ cs) c e w k = ground (arith, count_waiting-end a f cs c)

pub count_waiting-snoc :
    (cs : List BgCommand) (c : BgCommand)
    → count_waiting (cs ++ (c ∷ [])) ≡ count_waiting cs + (if c.waiting then 1 else 0)
unfolding count_waiting
count_waiting-snoc [] c = ground arith
count_waiting-snoc (d ∷ cs) c = ground (arith, count_waiting-snoc cs c)

pub AllOk-snoc :
    (cs : List BgCommand) (c : BgCommand) → AllOk cs → CellOk c → AllOk (cs ++ (c ∷ []))
AllOk-snoc [] c h k = (k, tt)
AllOk-snoc (d ∷ cs) c h k = (h.0, AllOk-snoc cs c h.1 k)

pub true_false : {A : Type 0} → true ≡ false → A
true_false e = absurd (ground arith)

interrupted_not_running : (s : BgState) → is_interrupted s ≡ true → is_running s ≡ false
interrupted_not_running running e = true_false (sym e)
interrupted_not_running completed e = refl
interrupted_not_running failed e = refl
interrupted_not_running interrupted e = refl

pub finish-CellOk : (now : ℕ) (result : WaitResult) (c : BgCommand) → CellOk (finish now result c)
unfolding finish
finish-CellOk now exited c = record {
  unfinished = λ e. true_false (sym e);
  ended = λ e. (λ n. ground arith, refl);
}
finish-CellOk now (exit_error code text) c = elim (Bool-cases (is_interrupted c.status)) [
  | inl asked ↦ rw asked (record {
    unfinished = λ e. true_false (sym e);
    ended = λ e. (λ n. ground arith, interrupted_not_running c.status asked);
  })
  | inr unasked ↦
      rw unasked
        (record { unfinished = λ e. true_false (sym e); ended = λ e. (λ n. ground arith, refl) })
]
finish-CellOk now (wait_error text) c = record {
  unfinished = λ e. true_false (sym e);
  ended = λ e. (λ n. ground arith, refl);
}

pub finish-waiting :
    (now : ℕ) (result : WaitResult) (c : BgCommand) → (finish now result c).waiting ≡ false
unfolding finish
finish-waiting now exited c = refl
finish-waiting now (exit_error code text) c = ground arith
finish-waiting now (wait_error text) c = refl

pub mark-CellOk : (c : BgCommand) → CellOk c → CellOk (mark_interrupted c)
unfolding mark_interrupted
mark-CellOk c h = elim (Bool-cases (is_running c.status)) [
  | inl on ↦ rw on (record { unfinished = h.unfinished; ended = λ e. ((h.ended e).0, refl) })
  | inr off ↦ rw off h
]

pub mark-waiting : (c : BgCommand) → (mark_interrupted c).waiting ≡ c.waiting
unfolding mark_interrupted
mark-waiting c = ground arith
