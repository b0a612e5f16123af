-- ===== src/Provisioner/Gc/Safety.antt =====
-- pkg/provisioner/gc.go: nothing but what Docker lists as reclaimable is removed, and the list.
use agentry.Base.{
  ◌≡◌, refl, sym, ◌∙◌, Bool, true, ◌&&◌, Option, none, some, List, [], ◌∷◌, map, arith, Bool-cases,
  Option-cases, Result-cases, ◌⊎◌, inl, inr, Text, str_eq, length, ◌==◌, Map, lookup, insert,
  lookup-insert, any, any-stable_sort, All, Result, ok, err,
}
use agentry.Base.Int.{ℤ, add64}
use agentry.Provisioner.Gc.Handler.{
  Docker, remove_containers, remove_images, execute_plan, handle_gc,
}
use agentry.Provisioner.Gc.{
  GcImageCandidate, GcContainerCandidate, GcCandidates, GcPlanImage, GcRequest, ImageSummary,
  ContainerSummary, gc_container_reclaimable, image_candidate, container_candidate,
  reclaimable_containers, gc_collect_candidates, img_size, valid_container, plan_containers,
  plan_images, gc_plan_removals, bigger, newer,
}

abbrev listed {ℓ} : {A : Type ℓ} → Result (List A) → List A
listed (ok xs) = xs
listed (err e) = []

-- Docker lists the image as dangling, and the container as one of a deployment that has stopped.
unfoldable pub is_dangling : Text → Result (List ImageSummary) → Bool
is_dangling id imgs = any (λ (im : ImageSummary). str_eq im.id id) (listed imgs)

unfoldable pub is_stopped : Text → Result (List ContainerSummary) → Bool
is_stopped id ctrs =
    any (λ (c : ContainerSummary). str_eq c.id id && gc_container_reclaimable c.state) (listed ctrs)

abbrev is_image : Text → GcImageCandidate → Bool
is_image id im = str_eq im.id id

abbrev is_container : Text → GcContainerCandidate → Bool
is_container id c = str_eq c.id id

lookup-valid_container :
    (id : Text) (cs : List GcContainerCandidate) (valid : Map (Unit {0})) {u : Unit {0}}
    → lookup id (valid_container cs valid) ≡ some u
    → (any (is_container id) cs ≡ true) ⊎ (lookup id valid ≡ some u)
unfolding valid_container any
lookup-valid_container id [] valid h = inr h
lookup-valid_container id (c ∷ cs) valid h =
    ground
      (arith, lookup-valid_container id cs (insert c.id tt valid) h, lookup-insert c.id id tt valid)

lookup-img_size :
    (id : Text) (ims : List GcImageCandidate) (sizes : Map ℤ) {n : ℤ}
    → lookup id (img_size ims sizes) ≡ some n
    → (any (is_image id) ims ≡ true) ⊎ (lookup id sizes ≡ some n)
unfolding img_size any
lookup-img_size id [] sizes h = inr h
lookup-img_size id (im ∷ ims) sizes h = ground (
  arith,
  lookup-img_size id ims (insert im.id im.size_bytes sizes) h,
  lookup-insert im.id id im.size_bytes sizes,
)

any-images :
    (id : Text) (ims : List ImageSummary)
    → any (is_image id) (map image_candidate ims) ≡ any (λ (im : ImageSummary). str_eq im.id id) ims
unfolding any image_candidate
any-images id [] = refl
any-images id (im ∷ ims) = ground (arith, any-images id ims)

any-containers :
    (id : Text) (cs : List ContainerSummary)
    → any (is_container id) (reclaimable_containers cs)
      ≡ any (λ (c : ContainerSummary). str_eq c.id id && gc_container_reclaimable c.state) cs
unfolding any reclaimable_containers container_candidate
any-containers id [] = refl
any-containers id (c ∷ cs) = elim (Bool-cases (gc_container_reclaimable c.state)) [
  | inl stopped ↦ ground (arith, stopped, any-containers id cs)
  | inr other ↦ ground (arith, other, any-containers id cs)
]

valid_container-any :
    (id : Text) (cs : List GcContainerCandidate) {u : Unit {0}}
    → lookup id (valid_container cs []) ≡ some u
    → any (is_container id) cs ≡ true
unfolding lookup
valid_container-any id cs h = ground (arith, lookup-valid_container id cs [] h)

img_size-any :
    (id : Text) (ims : List GcImageCandidate) {n : ℤ}
    → lookup id (img_size ims []) ≡ some n
    → any (is_image id) ims ≡ true
unfolding lookup
img_size-any id ims h = ground (arith, lookup-img_size id ims [] h)

plan_containers-All :
    (cs : List GcContainerCandidate) (ids : List Text)
    → All (λ id. any (is_container id) cs ≡ true) (plan_containers (valid_container cs []) ids).0
unfolding plan_containers
plan_containers-All cs [] = tt
plan_containers-All cs (id ∷ ids) = elim (Option-cases (lookup id (valid_container cs []))) [
  | inl unknown ↦ rw (unknown, plan_containers, All) (plan_containers-All cs ids)
  | inr (u, known) ↦
      rw (known, plan_containers, All) (valid_container-any id cs known, plan_containers-All cs ids)
]

plan_images-All :
    (ims : List GcImageCandidate) (ids : List Text)
    → All
        (λ (im : GcPlanImage). any (is_image im.id) ims ≡ true)
        (plan_images (img_size ims []) ids).0
unfolding plan_images
plan_images-All ims [] = tt
plan_images-All ims (id ∷ ids) = elim (Option-cases (lookup id (img_size ims []))) [
  | inl unknown ↦ rw (unknown, plan_images, All) (plan_images-All ims ids)
  | inr (n, known) ↦
      rw (known, plan_images, All) (img_size-any id ims known, plan_images-All ims ids)
]

-- What each removal of the plan keeps, the loops keep.
module _ {World : Type 0} (docker : Docker World) (P : World → Type 0) where
  remove_containers-keeps :
      (test : Text → Bool)
      → ((id : Text) (w : World) → test id ≡ true → P w → P (docker.container_remove id w).1)
      → (ids : List Text) (bytes : ℤ) (w : World) → All (λ id. test id ≡ true) ids
      → P w
      → P (remove_containers docker ids bytes w).world
  unfolding remove_containers
  remove_containers-keeps test keep [] bytes w a h = h
  remove_containers-keeps test keep (id ∷ ids) bytes w a h =
      let rest =
        remove_containers-keeps test keep ids bytes (docker.container_remove id w).1 a.1
          (keep id w a.0 h) in
      elim (Option-cases (docker.container_remove id w).0) [
        | inl done ↦ rw (done, remove_containers) rest
        | inr (e, failed) ↦ rw (failed, remove_containers) rest
      ]

  remove_images-keeps :
      (test : Text → Bool)
      → ((id : Text) (w : World) → test id ≡ true → P w → P (docker.image_remove id w).1)
      → (ims : List GcPlanImage) (bytes : ℤ) (w : World)
      → All (λ (im : GcPlanImage). test im.id ≡ true) ims
      → P w
      → P (remove_images docker ims bytes w).world
  unfolding remove_images
  remove_images-keeps test keep [] bytes w a h = h
  remove_images-keeps test keep (im ∷ ims) bytes w a h =
      let kept = keep im.id w a.0 h in
      elim (Option-cases (docker.image_remove im.id w).0) [
        | inl done ↦
            rw (done, remove_images)
              (remove_images-keeps test keep ims (add64 bytes im.size)
                (docker.image_remove im.id w).1 a.1 kept)
        | inr (e, failed) ↦
            rw (failed, remove_images)
              (remove_images-keeps test keep ims bytes (docker.image_remove im.id w).1 a.1 kept)
      ]

  collected-any :
      (imgs : Result (List ImageSummary)) (ctrs : Result (List ContainerSummary))
      {cands : GcCandidates}
      → gc_collect_candidates imgs ctrs ≡ ok cands
      → ((id : Text) → any (is_image id) cands.images ≡ is_dangling id imgs)
        × ((id : Text) → any (is_container id) cands.containers ≡ is_stopped id ctrs)
  unfolding gc_collect_candidates is_dangling is_stopped
  collected-any (err e) ctrs h = cc
  collected-any (ok imgs) (err e) h = cc
  collected-any (ok imgs) (ok ctrs) h = (
    λ id. ground (
      arith,
      h,
      any-images id imgs,
      any-stable_sort bigger (is_image id) (map image_candidate imgs),
    ),
    λ id. ground (
      arith,
      h,
      any-containers id ctrs,
      any-stable_sort newer (is_container id) (reclaimable_containers ctrs),
    ),
  )

  execute_plan-keeps :
      (imgs : Result (List ImageSummary)) (ctrs : Result (List ContainerSummary))
      {cands : GcCandidates} (req : GcRequest) (w : World)
      → gc_collect_candidates imgs ctrs ≡ ok cands
      → ((id : Text) (v : World)
          → is_stopped id ctrs ≡ true
          → P v
          → P (docker.container_remove id v).1)
      → ((id : Text) (v : World)
          → is_dangling id imgs ≡ true
          → P v
          → P (docker.image_remove id v).1)
      → P w
      → P (execute_plan docker (gc_plan_removals cands req) w).1
  unfolding execute_plan gc_plan_removals
  execute_plan-keeps imgs ctrs {cands} req w found kc ki h =
      let any_of = collected-any imgs ctrs found in
      remove_images-keeps (λ id. any (is_image id) cands.images)
        (λ id v t. ki id v (sym (any_of.0 id) ∙ t)) _ _ _
        (plan_images-All cands.images req.image_ids)
        (remove_containers-keeps (λ id. any (is_container id) cands.containers)
          (λ id v t. kc id v (sym (any_of.1 id) ∙ t)) _ _ _
          (plan_containers-All cands.containers req.container_ids) h)

  -- Whatever holds of Docker's state and is kept by the removal of any image that Docker lists as
  -- dangling and of any container of a deployment that it lists as stopped, holds after a request
  -- to collect, whatever the request asks for: nothing else is ever removed.
  pub handle_gc-keeps :
      (client : Option Text) (body : Result GcRequest) (imgs : Result (List ImageSummary))
      (ctrs : Result (List ContainerSummary)) (w : World)
      → ((id : Text) (v : World)
          → is_stopped id ctrs ≡ true
          → P v
          → P (docker.container_remove id v).1)
      → ((id : Text) (v : World)
          → is_dangling id imgs ≡ true
          → P v
          → P (docker.image_remove id v).1)
      → P w
      → P (handle_gc docker client body imgs ctrs w).1
  unfolding handle_gc
  handle_gc-keeps (some e) body imgs ctrs w kc ki h = h
  handle_gc-keeps none (err e) imgs ctrs w kc ki h = h
  handle_gc-keeps none (ok req) imgs ctrs w kc ki h =
      elim (Bool-cases (length req.image_ids == 0 && length req.container_ids == 0)) [
        | inl nothing ↦ rw nothing h
        | inr some_ids ↦ elim (Result-cases (gc_collect_candidates imgs ctrs)) [
          | inl (cands, found) ↦
              rw (some_ids, found) (execute_plan-keeps imgs ctrs req w found kc ki h)
          | inr (e, failed) ↦ rw (some_ids, failed) h
        ]
      ]
