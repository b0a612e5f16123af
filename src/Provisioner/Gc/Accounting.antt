-- ===== src/Provisioner/Gc/Accounting.antt =====
-- pkg/provisioner/gc.go: every id of a request is answered for.
use agentry.Base.{
  count, ◌+◌, ◌≡◌, refl, Option, none, some, List, [], ◌∷◌, ◌++◌, map, arith, Bool-cases,
  Option-cases, Result-cases, length, ◌==◌, ◌&&◌, inl, inr, Text, Map, lookup, Result, ok, err,
}
use agentry.Base.Int.{ℤ, pos, add64}
use agentry.Provisioner.{writes_json}
use agentry.Provisioner.Gc.Handler.{
  Docker, Removal, handle_gc, remove_containers, remove_images, execute_plan,
}
use agentry.Provisioner.Gc.{
  GcError, GcPlanImage, GcRequest, GcResult, GcCandidates, plan_containers, plan_images,
  valid_container, img_size, ImageSummary, ContainerSummary, gc_collect_candidates,
  gc_plan_removals,
}

abbrev pub error_ids : List GcError → List Text
error_ids errors = map (λ (e : GcError). e.id) errors

abbrev pub plan_ids : List GcPlanImage → List Text
plan_ids images = map (λ (im : GcPlanImage). im.id) images

count-error_ids :
    (k : Text) (xs ys : List GcError)
    → count k (error_ids (xs ++ ys)) ≡ count k (error_ids xs) + count k (error_ids ys)
unfolding count
count-error_ids k [] ys = omega arith
count-error_ids k (x ∷ xs) ys = ground (arith, count-error_ids k xs ys)

count-plan_containers :
    (k : Text) (valid : Map (Unit {0})) (ids : List Text)
    → count k (plan_containers valid ids).0 + count k (error_ids (plan_containers valid ids).1)
      ≡ count k ids
unfolding count plan_containers
count-plan_containers k valid [] = refl
count-plan_containers k valid (id ∷ ids) = elim (Option-cases (lookup id valid)) [
  | inl unknown ↦ ground (arith, unknown, count-plan_containers k valid ids)
  | inr (u, known) ↦ ground (arith, known, count-plan_containers k valid ids)
]

count-plan_images :
    (k : Text) (sizes : Map ℤ) (ids : List Text)
    → count k (plan_ids (plan_images sizes ids).0) + count k (error_ids (plan_images sizes ids).1)
      ≡ count k ids
unfolding count plan_images
count-plan_images k sizes [] = refl
count-plan_images k sizes (id ∷ ids) = elim (Option-cases (lookup id sizes)) [
  | inl unknown ↦ ground (arith, unknown, count-plan_images k sizes ids)
  | inr (u, known) ↦ ground (arith, known, count-plan_images k sizes ids)
]

module _ {World : Type 0} (docker : Docker World) (k : Text) where
  count-remove_containers :
      (ids : List Text) (bytes : ℤ) (w : World)
      → count k (remove_containers docker ids bytes w).removed
          + count k (error_ids (remove_containers docker ids bytes w).failed)
        ≡ count k ids
  unfolding count remove_containers
  count-remove_containers [] bytes w = refl
  count-remove_containers (id ∷ ids) bytes w =
      let rest = count-remove_containers ids bytes (docker.container_remove id w).1 in
      elim (Option-cases (docker.container_remove id w).0) [
        | inl done ↦ ground (arith, done, rest)
        | inr (e, failed) ↦ ground (arith, failed, rest)
      ]

  count-remove_images :
      (ims : List GcPlanImage) (bytes : ℤ) (w : World)
      → count k (remove_images docker ims bytes w).removed
          + count k (error_ids (remove_images docker ims bytes w).failed)
        ≡ count k (plan_ids ims)
  unfolding count remove_images
  count-remove_images [] bytes w = refl
  count-remove_images (im ∷ ims) bytes w =
      let w' = (docker.image_remove im.id w).1 in
      elim (Option-cases (docker.image_remove im.id w).0) [
        | inl done ↦ ground (arith, done, count-remove_images ims (add64 bytes im.size) w')
        | inr (e, failed) ↦ ground (arith, failed, count-remove_images ims bytes w')
      ]

  execute_plan-count :
      (cands : GcCandidates) (req : GcRequest) (w : World) {result : GcResult}
      → result ≡ (execute_plan docker (gc_plan_removals cands req) w).0
      → count k result.removed_containers
          + (count k result.removed_images + count k (error_ids result.errors))
        ≡ count k req.container_ids + count k req.image_ids
  unfolding execute_plan gc_plan_removals
  execute_plan-count cands req w {result} e = ground (
    arith,
    e,
    count-plan_containers k (valid_container cands.containers []) req.container_ids,
    count-plan_images k (img_size cands.images []) req.image_ids,
    count-error_ids k (gc_plan_removals cands req).errors (containers.failed ++ images.failed),
    count-error_ids k containers.failed images.failed,
    count-error_ids k (plan_containers (valid_container cands.containers []) req.container_ids).1
        (plan_images (img_size cands.images []) req.image_ids).1,
    count-remove_containers (gc_plan_removals cands req).container_ids (pos 0) w,
    count-remove_images (gc_plan_removals cands req).images containers.reclaimed containers.world,
  )
    where
      containers : Removal docker
      containers = remove_containers docker (gc_plan_removals cands req).container_ids (pos 0) w

      images : Removal docker
      images =
          remove_images docker (gc_plan_removals cands req).images containers.reclaimed
            containers.world

  -- A result comes from the plan for the candidates of this moment.
  handle_gc-result :
      (client : Option Text) (body : Result GcRequest) (imgs : Result (List ImageSummary))
      (ctrs : Result (List ContainerSummary)) (w : World) {req : GcRequest} {result : GcResult}
      → body ≡ ok req
      → (handle_gc docker client body imgs ctrs w).0 ≡ writes_json 200 result
      → (cands : GcCandidates) × (gc_collect_candidates imgs ctrs ≡ ok cands)
        × (result ≡ (execute_plan docker (gc_plan_removals cands req) w).0)
  unfolding handle_gc
  handle_gc-result (some e) body imgs ctrs w b h = cc
  handle_gc-result none (err e) imgs ctrs w b h = cc
  handle_gc-result none (ok q) imgs ctrs w {req} {result} b h =
      elim (Bool-cases (length q.image_ids == 0 && length q.container_ids == 0)) [
        | inl nothing ↦ absurd (ground (arith, nothing, h))
        | inr some_ids ↦ elim (Result-cases (gc_collect_candidates imgs ctrs)) [
          | inl (cands, listed) ↦ (cands, listed, ground (arith, some_ids, listed, h, b))
          | inr (e, failed) ↦ absurd (ground (arith, some_ids, failed, h))
        ]
      ]

  -- Each id that a request asks to remove is, as often as it is asked for, among the removed
  -- containers, the removed images or the errors of the result.
  pub handle_gc-count :
      (client : Option Text) (body : Result GcRequest) (imgs : Result (List ImageSummary))
      (ctrs : Result (List ContainerSummary)) (w : World) {req : GcRequest} {result : GcResult}
      → body ≡ ok req
      → (handle_gc docker client body imgs ctrs w).0 ≡ writes_json 200 result
      → count k result.removed_containers
          + (count k result.removed_images + count k (error_ids result.errors))
        ≡ count k req.container_ids + count k req.image_ids
  handle_gc-count client body imgs ctrs w {req} b h =
      let (cands, listed, same) = handle_gc-result client body imgs ctrs w b h in
      execute_plan-count cands req w same
