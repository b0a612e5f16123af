-- ===== src/Runtime/Projects/Breaker.antt =====
-- pkg/handlers/project.go: the circuit breaker of a project.
use agentry.Base.{
  if◌then◌else◌, ℕ, ◌+◌, ◌≤◌, ◌<◌, ◌≡◌, refl, false, List, [], ◌∷◌, ◌++◌, arith, leb, Text, codes,
  str_eq_refl, lookup-insert, length, err, ap, ◌∙◌,
}
use agentry.Runtime.Projects.{
  ProjectManager, System, crash_window, max_crashes_in_window, crashes_of, recent_crashes,
  is_circuit_open, record_crash, start_project, start_closed,
}

-- Crashes with their times, the first one first.
abbrev pub after_crashes : Text → List ℕ → ProjectManager → ProjectManager
after_crashes name [] pm = pm
after_crashes name (t ∷ ts) pm = after_crashes name ts (record_crash name t pm)

-- Each time lies within the window before `now`.
abbrev pub AllRecent : ℕ → List ℕ → Type 0
AllRecent now [] = Unit
AllRecent now (t ∷ ts) = (t ≤ now) × (now < t + crash_window) × AllRecent now ts

length-recent_crashes :
    (now : ℕ) (ts us : List ℕ)
    → length (recent_crashes now (ts ++ us))
      ≡ length (recent_crashes now ts) + length (recent_crashes now us)
unfolding recent_crashes
length-recent_crashes now [] us = omega arith
length-recent_crashes now (t ∷ ts) us = ground (arith, length-recent_crashes now ts us)

-- A crash that is dropped at one time is not recent later.
recent_crashes-recent_crashes :
    (now later : ℕ) (ts : List ℕ)
    → now ≤ later
    → recent_crashes later (recent_crashes now ts) ≡ recent_crashes later ts
unfolding recent_crashes
recent_crashes-recent_crashes now later [] h = refl
recent_crashes-recent_crashes now later (t ∷ ts) h =
    ground (arith, h, recent_crashes-recent_crashes now later ts h)

crashes_of-record_crash :
    (name : Text) (now : ℕ) (pm : ProjectManager)
    → crashes_of name (record_crash name now pm)
      ≡ recent_crashes now (crashes_of name pm ++ now ∷ [])
unfolding crashes_of record_crash
crashes_of-record_crash name now pm = ground (
  arith,
  lookup-insert name name (recent_crashes now (crashes_of name pm ++ now ∷ [])) pm.crash_states,
  str_eq_refl name,
)

recent : Text → ℕ → ProjectManager → ℕ
recent name now pm = length (recent_crashes now (crashes_of name pm))

recent-record_crash :
    (name : Text) (t now : ℕ) (pm : ProjectManager)
    → t ≤ now
    → now < t + crash_window
    → recent name now (record_crash name t pm) ≡ recent name now pm + 1
unfolding recent
recent-record_crash name t now pm le near =
    ap (λ ts. length (recent_crashes now ts)) (crashes_of-record_crash name t pm)
    ∙ ap length (recent_crashes-recent_crashes t now (crashes_of name pm ++ t ∷ []) le)
    ∙ length-recent_crashes now (crashes_of name pm) (t ∷ [])
    ∙ ap (λ n. length (recent_crashes now (crashes_of name pm)) + n) one
  where
    one : length (recent_crashes now (t ∷ [])) ≡ 1
    one = unfold recent_crashes in ground (arith, near)

recent-after_crashes :
    (name : Text) (now : ℕ) (ts : List ℕ) (pm : ProjectManager)
    → AllRecent now ts
    → recent name now (after_crashes name ts pm) ≡ recent name now pm + length ts
recent-after_crashes name now [] pm a = omega arith
recent-after_crashes name now (t ∷ ts) pm a = omega (
  arith,
  recent-after_crashes name now ts (record_crash name t pm) a.2,
  recent-record_crash name t now pm a.0 a.1,
)

recent_crashes-old : (now : ℕ) (t : ℕ) → t + crash_window ≤ now → recent_crashes now (t ∷ []) ≡ []
unfolding recent_crashes
recent_crashes-old now t h = ground (arith, h)

recent-record_crash_old :
    (name : Text) (t later : ℕ) (pm : ProjectManager)
    → t + crash_window ≤ later
    → recent name later (record_crash name t pm) ≡ recent name later pm
unfolding recent
recent-record_crash_old name t later pm h =
    ap (λ ts. length (recent_crashes later ts)) (crashes_of-record_crash name t pm)
    ∙ ap length
        (recent_crashes-recent_crashes t later (crashes_of name pm ++ t ∷ []) (omega (arith, h)))
    ∙ length-recent_crashes later (crashes_of name pm) (t ∷ [])
    ∙ ap (λ ts. length (recent_crashes later (crashes_of name pm)) + length ts)
        (recent_crashes-old later t h)
    ∙ omega arith

-- Each time lies a window or more before `later`.
abbrev pub AllOld : ℕ → List ℕ → Type 0
AllOld later [] = Unit
AllOld later (t ∷ ts) = (t + crash_window ≤ later) × AllOld later ts

recent-after_crashes_old :
    (name : Text) (later : ℕ) (ts : List ℕ) (pm : ProjectManager)
    → AllOld later ts
    → recent name later (after_crashes name ts pm) ≡ recent name later pm
recent-after_crashes_old name later [] pm a = refl
recent-after_crashes_old name later (t ∷ ts) pm a =
    recent-after_crashes_old name later ts (record_crash name t pm) a.1
    ∙ recent-record_crash_old name t later pm a.0

-- A name with no crash on record whose process exits at the times `ts`: within the window the
-- breaker is open exactly from the fifth exit on, a start is then refused and changes nothing, and
-- a window after the last exit it is closed again.
pub is_circuit_open-after_crashes :
    (sys : System) (name : Text) (now later : ℕ) (ts : List ℕ) (pm : ProjectManager)
    → crashes_of name pm ≡ []
    → AllRecent now ts
    → AllOld later ts
    → (is_circuit_open name now (after_crashes name ts pm) ≡ leb max_crashes_in_window (length ts))
      × (start_project sys name now (after_crashes name ts pm) ≡ (
          if leb max_crashes_in_window (length ts)
          then (
            err (
                codes "project '"
                ++ (name ++ codes "' has crashed too many times, circuit breaker open")),
            after_crashes name ts pm,
          )
          else start_closed sys name now (after_crashes name ts pm)))
      × (is_circuit_open name later (after_crashes name ts pm) ≡ false)
unfolding is_circuit_open
is_circuit_open-after_crashes sys name now later ts pm fresh near old =
    let counted = recent-after_crashes name now ts pm near in
    let opened : is_circuit_open name now (after_crashes name ts pm)
        ≡ leb max_crashes_in_window (length ts) =
      unfold recent in
      ap (leb max_crashes_in_window)
        (counted ∙ ap (λ n. n + length ts) (none_yet now) ∙ omega arith) in
    (
      opened,
      unfold start_project in rw opened refl,
      unfold recent in
          ap (leb max_crashes_in_window)
            (recent-after_crashes_old name later ts pm old ∙ none_yet later),
    )
  where
    none_yet : (t : ℕ) → recent name t pm ≡ 0
    none_yet t = unfold recent recent_crashes in ap (λ us. length (recent_crashes t us)) fresh
