-- ===== src/Provisioner/Gc/Handler.antt =====
-- pkg/provisioner/gc.go: the handlers, with the removals of a plan.
use agentry.Base.{
  ◌&&◌, Option, none, some, List, [], ◌∷◌, ◌++◌, ◌==◌, if◌then◌else◌, Text, codes, length, Result,
  ok, err,
}
use agentry.Provisioner.{Reply, writes_json, writes_error}
use agentry.Base.Int.{ℤ, pos, add64}
use agentry.Provisioner.Gc.{
  ImageSummary, ContainerSummary, GcCandidates, GcRequest, GcError, GcResult, GcPlanImage, GcPlan,
  gc_error, gc_collect_candidates, gc_plan_removals,
}

-- Docker: a removal answers with its error, if it fails, and the state afterwards.
pub record Docker (World : Type 0) : Type 0 where
  pub container_remove : Text → World → Option Text × World
  pub image_remove : Text → World → Option Text × World

module _ {World : Type 0} (docker : Docker World) where
  pub record Removal : Type 0 where
    pub removed : List Text
    pub failed : List GcError
    pub reclaimed : ℤ
    pub world : World

  unfoldable pub remove_containers : List Text → ℤ → World → Removal
  remove_containers [] bytes w = record { removed = []; failed = []; reclaimed = bytes; world = w }
  remove_containers (id ∷ ids) bytes w =
      let (error, w') = docker.container_remove id w in
      let rest = remove_containers ids bytes w' in
      elim error [
        | none ↦ record rest { removed = id ∷ rest.removed }
        | some e ↦ record rest { failed = gc_error id e ∷ rest.failed }
      ]

  unfoldable pub remove_images : List GcPlanImage → ℤ → World → Removal
  remove_images [] bytes w = record { removed = []; failed = []; reclaimed = bytes; world = w }
  remove_images (im ∷ ims) bytes w =
      let (error, w') = docker.image_remove im.id w in
      elim error [
        | none ↦
            let rest = remove_images ims (add64 bytes im.size) w' in
            record rest { removed = im.id ∷ rest.removed }
        | some e ↦
            let rest = remove_images ims bytes w' in
            record rest { failed = gc_error im.id e ∷ rest.failed }
      ]

  unfoldable pub execute_plan : GcPlan → World → GcResult × World
  execute_plan plan w =
      let containers = remove_containers plan.container_ids (pos 0) w in
      let images = remove_images plan.images containers.reclaimed containers.world in
      (
        record {
          removed_images = images.removed;
          removed_containers = containers.removed;
          reclaimed_bytes = images.reclaimed;
          errors = plan.errors ++ (containers.failed ++ images.failed);
        },
        images.world,
      )

  -- A body that does not decode is none. The first argument is the error of the Docker client.
  unfoldable pub handle_gc :
      Option Text
      → Result GcRequest
      → Result (List ImageSummary)
      → Result (List ContainerSummary)
      → World
      → Reply GcResult × World
  handle_gc (some e) body imgs ctrs w =
      (writes_error 503 (codes "docker client unavailable: " ++ e), w)
  handle_gc none (err e) imgs ctrs w = (writes_error 400 (codes "bad body: " ++ e), w)
  handle_gc none (ok req) imgs ctrs w =
      if length req.image_ids == 0 && length req.container_ids == 0
      then (writes_error 400 (codes "nothing to collect: pass image_ids and/or container_ids"), w)
      else elim (gc_collect_candidates imgs ctrs) [
        | err e ↦ (writes_error 500 (codes "revalidate gc candidates: " ++ e), w)
        | ok cands ↦
            let (result, w') = execute_plan (gc_plan_removals cands req) w in
            (writes_json 200 result, w')
      ]

-- The read-only list for the operator.
unfoldable pub handle_gc_candidates :
    Option Text → Result (List ImageSummary) → Result (List ContainerSummary) → Reply GcCandidates
handle_gc_candidates (some e) imgs ctrs =
    writes_error 503 (codes "docker client unavailable: " ++ e)
handle_gc_candidates none imgs ctrs = elim (gc_collect_candidates imgs ctrs) [
  | err e ↦ writes_error 500 (codes "collect gc candidates: " ++ e)
  | ok cands ↦ writes_json 200 cands
]
