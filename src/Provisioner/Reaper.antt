-- ===== src/Provisioner/Reaper.antt =====
-- pkg/provisioner/reaper.go: the loop that deletes the sandboxes whose time is over. A sweep starts
-- one goroutine for each of them, and a semaphore lets eight delete at a time. Errors are logged
-- only, so that a goroutine makes its two calls whatever they answer.
pub mod Expired
pub mod Steps
pub mod Deletions
use agentry.Base.{
  ℕ, suc, ◌+◌, ◌<◌, ◌≡◌, Bool, Option, none, some, List, [], ◌∷◌, ◌++◌, if◌then◌else◌, Text, length,
  Result, ok, err,
}
use agentry.Base.Int.{ℤ}
use agentry.Provisioner.Expiry.{parse_expires_at, is_expired}
use agentry.Provisioner.Backend.{SandboxInfo, Backend, pod_name, svc_name}

abbrev pub reaper_grace_period : ℕ
reaper_grace_period = 10

abbrev pub reaper_concurrency : ℕ
reaper_concurrency = 8

-- A call of the backend.
pub data Call : Type 0 where
  delete_pod : Text → ℕ → Call
  delete_service : Text → Call

-- A goroutine that holds a place of the semaphore: before its first call, or before its second.
pub data Worker : Type 0 where
  at_pod : Text → Worker
  at_service : Text → Worker

-- The calls made so far, the last one first.
pub record Reaping : Type 0 where
  pub waiting : List Text
  pub running : List Worker
  pub calls : List Call

-- The goroutines of reapAll, before the first of them runs.
unfoldable pub reap_all : List Text → Reaping
reap_all ids = record { waiting = ids; running = []; calls = [] }

-- What any goroutine may do next: take a place, make the first call of reapOne, or make the second
-- and give the place back.
pub data Step (r : Reaping) (s : Reaping) : Type 0 where
  acquire :
      (before after : List Text) (id : Text)
      → r.waiting ≡ before ++ id ∷ after
      → length r.running < reaper_concurrency
      → s ≡ record r { waiting = before ++ after; running = at_pod id ∷ r.running }
      → Step r s
  pod :
      (before after : List Worker) (id : Text)
      → r.running ≡ before ++ at_pod id ∷ after
      → s ≡ record r {
        running = before ++ at_service id ∷ after;
        calls = delete_pod (pod_name id) reaper_grace_period ∷ r.calls;
      }
      → Step r s
  service :
      (before after : List Worker) (id : Text)
      → r.running ≡ before ++ at_service id ∷ after
      → s ≡ record r { running = before ++ after; calls = delete_service (svc_name id) ∷ r.calls }
      → Step r s

-- Some goroutines have made this many steps.
pub data Run (r : Reaping) : ℕ → Reaping → Type 0 where
  start : Run r 0 r
  step : {n : ℕ} {s t : Reaping} → Run r n s → Step s t → Run r (suc n) t

module _ (parse : Text → Result ℤ) where
  -- The loop of sweep over the sandboxes: a deadline that does not parse is passed over.
  unfoldable pub expired_ids : ℤ → List SandboxInfo → List Text
  unfolding parse_expires_at is_expired
  expired_ids now [] = []
  expired_ids now (s ∷ ss) =
      let rest = expired_ids now ss in
      elim (parse_expires_at parse s.expires_at) [
        | err e ↦ rest
        | ok t ↦ if is_expired t now then s.sandbox_id ∷ rest else rest
      ]

  -- What a sweep starts: nothing if the list fails.
  unfoldable pub sweep : ℤ → Result (List SandboxInfo) → Reaping
  unfolding reap_all
  sweep now (err e) = reap_all []
  sweep now (ok sandboxes) = reap_all (expired_ids now sandboxes)
