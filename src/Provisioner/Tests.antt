-- ===== src/Provisioner/Tests.antt =====
-- Runs of pkg/provisioner at concrete inputs, and the instances of its theorems there: collection and
-- expiry. Creation, volumes, the lockfile and the pauses are in the children.
mod Models
mod Creation
mod Sandboxes
mod Files
use agentry.Base.{
  leb, ℕ, suc, ◌+◌, ◌*◌, ◌≤◌, ◌<◌, ◌≡◌, refl, Bool, true, false, Option, none, some, List, [], ◌∷◌,
  arith, if◌then◌else◌, ◌⊎◌, Text, codes, str_eq, eq_of_str_eq, count, length, any, Result, ok, err,
  ap, Bool-cases, inl, inr,
}
use agentry.Base.Int.{ℤ, pos, negsuc}
use agentry.Provisioner.{writes_json}
use agentry.Provisioner.Gc.Handler.{Docker, handle_gc}
use agentry.Provisioner.Gc.{
  ImageSummary, ContainerSummary, GcRequest, GcResult, gc_error, short_docker_id,
}
use agentry.Provisioner.Gc.Accounting.{handle_gc-count, error_ids}
use agentry.Provisioner.Gc.Safety.{handle_gc-keeps, is_dangling, is_stopped}
use agentry.Provisioner.Expiry.{
  second, parse_expires_at, expires_at_from_ttl, is_expired, expires_at_from_ttl-overflow,
}
use agentry.Provisioner.Backend.{SandboxInfo}
use agentry.Provisioner.Reaper.{
  Reaping, Step, Run, start, step, acquire, pod, service, reap_all, expired_ids, delete_pod,
  delete_service, at_pod, at_service, reaper_concurrency,
}
use agentry.Provisioner.Reaper.Expired.{expired_ids-expires_at_from_ttl}
use agentry.Provisioner.Reaper.Deletions.{reap_all-AllDeleted, AllDeleted}
use agentry.Provisioner.Backend.{pod_name, svc_name}
use Models.{format, parse, rfc}

-- Docker as the list of the ids that were removed.
abbrev docker : Docker (List Text)
docker = record { container_remove = λ id w. (none, id ∷ w); image_remove = λ id w. (none, id ∷ w) }

abbrev container : Text → Text → ContainerSummary
container id state = record {
  id = id;
  names = [];
  image = [];
  state = state;
  status = [];
  created = pos 0;
}

abbrev containers : List ContainerSummary
containers = container (codes "a") (codes "exited") ∷ container (codes "b") (codes "running") ∷ []

abbrev request : GcRequest
request = record { image_ids = codes "i" ∷ []; container_ids = codes "a" ∷ codes "b" ∷ [] }

-- The running container and the unknown image are errors.
abbrev collected : GcResult
collected = record {
  removed_images = [];
  removed_containers = codes "a" ∷ [];
  reclaimed_bytes = pos 0;
  errors =
      gc_error (codes "b") (codes "not a reclaimable container (running, unknown, or already gone)")
      ∷ gc_error (codes "i") (codes "not a reclaimable image (tagged, in use, or already gone)")
      ∷ [];
}

collect_runs :
    (handle_gc docker none (ok request) (ok []) (ok containers) []).0 ≡ writes_json 200 collected
unfolding handle_gc agentry.Provisioner.Gc.gc_collect_candidates
    agentry.Provisioner.Gc.Handler.execute_plan agentry.Provisioner.Gc.Handler.remove_images
    agentry.Provisioner.Gc.Handler.remove_containers agentry.Provisioner.Gc.gc_plan_removals
    agentry.Provisioner.Gc.plan_images agentry.Provisioner.Gc.plan_containers agentry.Base.lookup
    agentry.Provisioner.Gc.img_size agentry.Provisioner.Gc.valid_container agentry.Base.stable_sort
    agentry.Provisioner.Gc.reclaimable_containers agentry.Provisioner.Gc.gc_container_reclaimable
    str_eq agentry.Base.insert agentry.Base.delete
collect_runs = refl

handle_gc-count_example :
    count (codes "b") collected.removed_containers
      + (count (codes "b") collected.removed_images
          + count (codes "b") (error_ids collected.errors))
    ≡ 1
unfolding count str_eq
handle_gc-count_example =
    handle_gc-count docker (codes "b") none (ok request) (ok []) (ok containers) [] refl
      collect_runs

-- The running container stays, whatever is asked for.
KeepsB : List Text → Type 0
KeepsB w = count (codes "b") w ≡ 0

running_stays : is_stopped (codes "b") (ok containers) ≡ false
unfolding is_stopped any str_eq agentry.Provisioner.Gc.gc_container_reclaimable
running_stays = refl

keeps_container :
    (id : Text) (v : List Text) → is_stopped id (ok containers) ≡ true → KeepsB v → KeepsB (id ∷ v)
unfolding KeepsB count
keeps_container id v h k = elim (Bool-cases (str_eq id (codes "b"))) [
  | inr other ↦ ground (arith, other, k)
  | inl this ↦ absurd (
      cc (
        h,
        ap (λ i. is_stopped i (ok containers)) (eq_of_str_eq id (codes "b") this),
        running_stays,
      ))
]

keeps_image :
    (id : Text) (v : List Text) → is_dangling id (ok []) ≡ true → KeepsB v → KeepsB (id ∷ v)
unfolding is_dangling any
keeps_image id v h k = absurd (cc h)

handle_gc-keeps_example : KeepsB (handle_gc docker none (ok request) (ok []) (ok containers) []).1
handle_gc-keeps_example =
    handle_gc-keeps docker KeepsB none (ok request) (ok []) (ok containers) [] keeps_container
      keeps_image (unfold KeepsB count in refl)

-- One goroutine that makes its three steps.
swept : Reaping
swept = record {
  waiting = [];
  running = [];
  calls = delete_service (svc_name (codes "a")) ∷ delete_pod (pod_name (codes "a")) 10 ∷ [];
}

three_steps : Run (reap_all (codes "a" ∷ [])) 3 swept
unfolding reap_all swept
three_steps =
    step
      (step (step start (acquire [] [] (codes "a") refl (omega arith) refl))
        (pod [] [] (codes "a") refl refl))
      (service [] [] (codes "a") refl refl)

reap_all-AllDeleted_example :
    (length swept.running ≤ reaper_concurrency)
    × (3 ≤ 3 * length (codes "a" ∷ []))
    × (((s : Reaping) × Step swept s)
        ⊎ (AllDeleted (codes "a" ∷ []) swept.calls × (3 ≡ 3 * length (codes "a" ∷ []))))
reap_all-AllDeleted_example = reap_all-AllDeleted (codes "a" ∷ []) 3 swept three_steps

-- A lifetime of a minute from the second 100 on.
abbrev minute : SandboxInfo
minute = record {
  sandbox_id = codes "a";
  sandbox_url = [];
  status = [];
  expires_at = expires_at_from_ttl format (pos (100 * second)) (pos 60);
}

expired_ids-expires_at_from_ttl_example :
    (deadline : ℕ) × (deadline ≤ 160 * second)
    × (160 * second < deadline + second)
    × (expired_ids parse (pos (160 * second)) (minute ∷ [])
        ≡ (if leb deadline (160 * second) then codes "a" ∷ [] else []))
unfolding expired_ids
expired_ids-expires_at_from_ttl_example =
    expired_ids-expires_at_from_ttl format parse rfc (100 * second) 60 (160 * second) [] [] minute
      (omega arith) (omega arith) (omega arith) refl

-- A lifetime of ten billion seconds, in the year 2024.
abbrev this_year : ℕ
this_year = 63_850_000_000 * second

expires_at_from_ttl-overflow_example :
    (deadline : ℤ) × (parse_expires_at parse
        (expires_at_from_ttl format (pos this_year) (pos 10_000_000_000))
      ≡ ok deadline)
    × (is_expired deadline (pos this_year) ≡ true)
expires_at_from_ttl-overflow_example =
    expires_at_from_ttl-overflow format parse rfc this_year 10_000_000_000 (omega arith)
      (omega arith) (omega arith) (omega arith)
