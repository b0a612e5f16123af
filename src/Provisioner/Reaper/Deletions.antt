-- ===== src/Provisioner/Reaper/Deletions.antt =====
-- pkg/provisioner/reaper.go: what a sweep deletes, in whatever order its goroutines run.
use agentry.Base.{
  ℕ, ◌+◌, ◌*◌, ◌≤◌, ◌≡◌, refl, List, [], ◌∷◌, ◌++◌, map, ◌∙◌, ◌⊎◌, inl, inr, arith, Text, length,
  count,
}
use agentry.Provisioner.Reaper.{
  Worker, at_pod, at_service, Call, Reaping, Step, acquire, pod, service, Run, start, step,
  reap_all, reaper_concurrency, delete_pod, delete_service,
}
use agentry.Provisioner.Reaper.Steps.{
  Run-steps_left, Run-running, steps_left-Step, steps_left-zero, reap_all-steps_left,
}
use agentry.Provisioner.Backend.{pod_name, svc_name}

-- The names of the pods and of the services that the calls delete.
abbrev pub deleted_pods : List Call → List Text
deleted_pods [] = []
deleted_pods (delete_pod name grace ∷ cs) = name ∷ deleted_pods cs
deleted_pods (delete_service name ∷ cs) = deleted_pods cs

abbrev pub deleted_services : List Call → List Text
deleted_services [] = []
deleted_services (delete_pod name grace ∷ cs) = deleted_services cs
deleted_services (delete_service name ∷ cs) = name ∷ deleted_services cs

-- The ids of the goroutines before their first call, and of all.
abbrev before_pod : List Worker → List Text
before_pod [] = []
before_pod (at_pod id ∷ ws) = id ∷ before_pod ws
before_pod (at_service id ∷ ws) = before_pod ws

abbrev ids_of : List Worker → List Text
ids_of [] = []
ids_of (at_pod id ∷ ws) = id ∷ ids_of ws
ids_of (at_service id ∷ ws) = id ∷ ids_of ws

module _ (name : Text → Text) (k : Text) where
  times : List Text → ℕ
  times ids = count k (map name ids)

  times-append : (xs ys : List Text) → times (xs ++ ys) ≡ times xs + times ys
  unfolding times count
  times-append [] ys = omega arith
  times-append (x ∷ xs) ys = ground (arith, times-append xs ys)

  times-cons : (x : Text) (xs : List Text) → times (x ∷ xs) ≡ times (x ∷ []) + times xs
  unfolding times count
  times-cons x xs = ground arith

  times-one : (x : Text) (ys : List Text) → count k (name x ∷ ys) ≡ times (x ∷ []) + count k ys
  unfolding times count
  times-one x ys = ground arith

  times-ids_of :
      (us vs : List Worker) → times (ids_of (us ++ vs)) ≡ times (ids_of us) + times (ids_of vs)
  unfolding times count
  times-ids_of [] vs = omega arith
  times-ids_of (at_pod id ∷ us) vs = ground (arith, times-ids_of us vs)
  times-ids_of (at_service id ∷ us) vs = ground (arith, times-ids_of us vs)

  times-before_pod :
      (us vs : List Worker)
      → times (before_pod (us ++ vs)) ≡ times (before_pod us) + times (before_pod vs)
  unfolding times count
  times-before_pod [] vs = omega arith
  times-before_pod (at_pod id ∷ us) vs = ground (arith, times-before_pod us vs)
  times-before_pod (at_service id ∷ us) vs = ground (arith, times-before_pod us vs)

module _ (k : Text) where
  -- The pods deleted and the pods to delete, and so for the services.
  pods_due : Reaping → ℕ
  pods_due r =
      count k (deleted_pods r.calls)
      + (times pod_name k r.waiting + times pod_name k (before_pod r.running))

  services_due : Reaping → ℕ
  services_due r =
      count k (deleted_services r.calls)
      + (times svc_name k r.waiting + times svc_name k (ids_of r.running))

  Step-pods_due : {r s : Reaping} → Step r s → pods_due r ≡ pods_due s
  unfolding pods_due
  Step-pods_due {r} {s} (acquire before after id e room same) = ground (
    arith,
    e,
    same,
    times-append pod_name k before (id ∷ after),
    times-append pod_name k before after,
    times-cons pod_name k id after,
    times-cons pod_name k id (before_pod r.running),
  )
  Step-pods_due {r} {s} (pod before after id e same) = ground (
    arith,
    e,
    same,
    times-before_pod pod_name k before (at_pod id ∷ after),
    times-before_pod pod_name k before (at_service id ∷ after),
    times-cons pod_name k id (before_pod after),
    times-one pod_name k id (deleted_pods r.calls),
  )
  Step-pods_due {r} {s} (service before after id e same) = ground (
    arith,
    e,
    same,
    times-before_pod pod_name k before (at_service id ∷ after),
    times-before_pod pod_name k before after,
  )

  Step-services_due : {r s : Reaping} → Step r s → services_due r ≡ services_due s
  unfolding services_due
  Step-services_due {r} {s} (acquire before after id e room same) = ground (
    arith,
    e,
    same,
    times-append svc_name k before (id ∷ after),
    times-append svc_name k before after,
    times-cons svc_name k id after,
    times-cons svc_name k id (ids_of r.running),
  )
  Step-services_due {r} {s} (pod before after id e same) = ground (
    arith,
    e,
    same,
    times-ids_of svc_name k before (at_pod id ∷ after),
    times-ids_of svc_name k before (at_service id ∷ after),
  )
  Step-services_due {r} {s} (service before after id e same) = ground (
    arith,
    e,
    same,
    times-ids_of svc_name k before (at_service id ∷ after),
    times-ids_of svc_name k before after,
    times-cons svc_name k id (ids_of after),
    times-one svc_name k id (deleted_services r.calls),
  )

  Run-due :
      {r s : Reaping} {n : ℕ}
      → Run r n s
      → (pods_due r ≡ pods_due s) × (services_due r ≡ services_due s)
  Run-due start = (refl, refl)
  Run-due (step run st) =
      let before = Run-due run in (before.0 ∙ Step-pods_due st, before.1 ∙ Step-services_due st)

-- Each id's pod and service are deleted, as often as the id stands in the list.
pub AllDeleted : List Text → List Call → Type 0
AllDeleted ids calls =
    (k : Text)
    → (count k (deleted_pods calls) ≡ count k (map pod_name ids))
      × (count k (deleted_services calls) ≡ count k (map svc_name ids))

-- However the goroutines of a sweep take turns, at most eight hold a place, they make at most three
-- steps each, and unless one of them can go on, each has deleted its pod and its service once.
pub reap_all-AllDeleted :
    (ids : List Text) (n : ℕ) (r : Reaping)
    → Run (reap_all ids) n r
    → (length r.running ≤ reaper_concurrency)
      × (n ≤ 3 * length ids)
      × (((s : Reaping) × Step r s) ⊎ (AllDeleted ids r.calls × (n ≡ 3 * length ids)))
unfolding AllDeleted
reap_all-AllDeleted ids n r run =
    let room = Run-running run (unfold reap_all in omega arith) in
    let spent = Run-steps_left run in
    let total = reap_all-steps_left ids in
    (
      room,
      omega (arith, spent, total),
      elim (steps_left-Step r) [
        | inr next ↦ inl next
        | inl done ↦
            let (no_waiting, no_running) = steps_left-zero r done in
            inr (
              λ k.
                  let due = Run-due k run in
                  unfold pods_due services_due times count reap_all in
                  ground (arith, due, no_waiting, no_running),
              omega (arith, spent, total, done),
            )
      ],
    )
