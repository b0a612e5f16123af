-- ===== src/Provisioner/Reaper/Steps.antt =====
-- pkg/provisioner/reaper.go: the goroutines of a sweep end, and eight at most run at a time.
use agentry.Base.{
  ℕ, suc, ◌+◌, ◌*◌, ◌≤◌, ◌≡◌, refl, List, [], ◌∷◌, ◌++◌, ◌⊎◌, inl, inr, arith, Text, length,
  length-append,
}
use agentry.Provisioner.Reaper.{
  Worker, at_pod, at_service, Reaping, Step, acquire, pod, service, Run, start, step, reap_all,
  reaper_concurrency,
}

-- The steps that a goroutine still has to make, and those of all.
abbrev left_of : Worker → ℕ
left_of (at_pod id) = 2
left_of (at_service id) = 1

work : List Worker → ℕ
work [] = 0
work (w ∷ ws) = left_of w + work ws

work-append : (us vs : List Worker) → work (us ++ vs) ≡ work us + work vs
unfolding work
work-append [] vs = omega arith
work-append (w ∷ us) vs = omega (arith, work-append us vs)

unfoldable pub steps_left : Reaping → ℕ
unfolding work
steps_left r = 3 * length r.waiting + work r.running

-- Each step makes one of those.
Step-steps_left : {r s : Reaping} → Step r s → steps_left r ≡ suc (steps_left s)
unfolding steps_left work
Step-steps_left {r} {s} (acquire before after id e room same) =
    ground (arith, e, same, length-append before (id ∷ after), length-append before after)
Step-steps_left {r} {s} (pod before after id e same) = ground (
  arith,
  e,
  same,
  work-append before (at_pod id ∷ after),
  work-append before (at_service id ∷ after),
)
Step-steps_left {r} {s} (service before after id e same) =
    ground (arith, e, same, work-append before (at_service id ∷ after), work-append before after)

-- At most eight goroutines hold a place.
Step-running :
    {r s : Reaping}
    → Step r s
    → length r.running ≤ reaper_concurrency
    → length s.running ≤ reaper_concurrency
Step-running {r} {s} (acquire before after id e room same) h = ground (arith, same, room)
Step-running {r} {s} (pod before after id e same) h = ground (
  arith,
  e,
  same,
  h,
  length-append before (at_pod id ∷ after),
  length-append before (at_service id ∷ after),
)
Step-running {r} {s} (service before after id e same) h =
    ground
      (arith, e, same, h, length-append before (at_service id ∷ after), length-append before after)

pub Run-running :
    {r s : Reaping} {n : ℕ}
    → Run r n s
    → length r.running ≤ reaper_concurrency
    → length s.running ≤ reaper_concurrency
Run-running start h = h
Run-running (step run st) h = Step-running st (Run-running run h)

pub Run-steps_left : {r s : Reaping} {n : ℕ} → Run r n s → steps_left r ≡ n + steps_left s
Run-steps_left start = omega arith
Run-steps_left (step run st) = omega (arith, Run-steps_left run, Step-steps_left st)

-- Some goroutine can go on as long as steps are left.
pub steps_left-Step : (r : Reaping) → (steps_left r ≡ 0) ⊎ ((s : Reaping) × Step r s)
unfolding steps_left work
steps_left-Step r = next r.waiting r.running refl refl
  where
    next :
        (waiting : List Text) (running : List Worker)
        → r.waiting ≡ waiting
        → r.running ≡ running
        → (steps_left r ≡ 0) ⊎ ((s : Reaping) × Step r s)
    next waiting (at_pod id ∷ after) ew er = inr (_, pod [] after id er refl)
    next waiting (at_service id ∷ after) ew er = inr (_, service [] after id er refl)
    next (id ∷ after) [] ew er = inr (_, acquire [] after id ew (ground (arith, er)) refl)
    next [] [] ew er = inl (ground (arith, ew, er))

pub reap_all-steps_left : (ids : List Text) → steps_left (reap_all ids) ≡ 3 * length ids
unfolding steps_left work reap_all
reap_all-steps_left ids = omega arith

-- With no step left, no goroutine is left.
pub steps_left-zero : (r : Reaping) → steps_left r ≡ 0 → (r.waiting ≡ []) × (r.running ≡ [])
unfolding steps_left work
steps_left-zero r h = none_left r.waiting r.running refl refl
  where
    none_left :
        (waiting : List Text) (running : List Worker)
        → r.waiting ≡ waiting
        → r.running ≡ running
        → (r.waiting ≡ []) × (r.running ≡ [])
    none_left [] [] ew er = (ew, er)
    none_left (id ∷ after) running ew er = absurd (ground (arith, ew, h))
    none_left [] (at_pod id ∷ after) ew er = absurd (ground (arith, ew, er, h))
    none_left [] (at_service id ∷ after) ew er = absurd (ground (arith, ew, er, h))
