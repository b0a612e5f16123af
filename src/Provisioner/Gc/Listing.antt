-- ===== src/Provisioner/Gc/Listing.antt =====
-- pkg/provisioner/gc.go: the list that the operator reviews.
use mathlib.Core.List.{Perm}
use agentry.Base.{
  ◌≡◌, true, false, List, [], ◌∷◌, map, arith, Bool-cases, inl, inr, stable_sort-perm,
  stable_sort-IsOrdered, IsOrdered, ok, ok_inj, subst,
}
use agentry.Provisioner.Gc.{
  GcImageCandidate, GcContainerCandidate, GcCandidates, ImageSummary, ContainerSummary,
  gc_container_reclaimable, image_candidate, container_candidate, reclaimable_containers,
  gc_collect_candidates, bigger, newer,
}

bigger_asym : (a b : GcImageCandidate) → bigger a b ≡ true → bigger b a ≡ false
bigger_asym a b h = ground arith

newer_asym : (a b : GcContainerCandidate) → newer a b ≡ true → newer b a ≡ false
newer_asym a b h = ground arith

-- Each container of the list has stopped.
abbrev pub AllStopped : List GcContainerCandidate → Type 0
AllStopped [] = Unit
AllStopped (c ∷ cs) = (gc_container_reclaimable c.state ≡ true) × AllStopped cs

reclaimable_containers-AllStopped :
    (cs : List ContainerSummary) → AllStopped (reclaimable_containers cs)
unfolding reclaimable_containers container_candidate
reclaimable_containers-AllStopped [] = tt
reclaimable_containers-AllStopped (c ∷ cs) = elim (Bool-cases (gc_container_reclaimable c.state)) [
  | inl stopped ↦
      rw (stopped, AllStopped, reclaimable_containers)
        (stopped, reclaimable_containers-AllStopped cs)
  | inr other ↦
      rw (other, AllStopped, reclaimable_containers) (reclaimable_containers-AllStopped cs)
]

-- The candidates are the dangling images, each once, the biggest first, and the containers of
-- deployments that have stopped, each once, the newest first.
pub gc_collect_candidates-lists :
    (imgs : List ImageSummary) (ctrs : List ContainerSummary) {cands : GcCandidates}
    → gc_collect_candidates (ok imgs) (ok ctrs) ≡ ok cands
    → Perm cands.images (map image_candidate imgs)
      × IsOrdered bigger cands.images
      × Perm cands.containers (reclaimable_containers ctrs)
      × IsOrdered newer cands.containers
      × AllStopped (reclaimable_containers ctrs)
unfolding gc_collect_candidates
gc_collect_candidates-lists imgs ctrs {cands} h =
    subst
      (λ (c : GcCandidates).
        Perm c.images (map image_candidate imgs)
        × IsOrdered bigger c.images
        × Perm c.containers (reclaimable_containers ctrs)
        × IsOrdered newer c.containers
        × AllStopped (reclaimable_containers ctrs))
      (ok_inj h)
      (
        stable_sort-perm bigger (map image_candidate imgs),
        stable_sort-IsOrdered bigger bigger_asym (map image_candidate imgs),
        stable_sort-perm newer (reclaimable_containers ctrs),
        stable_sort-IsOrdered newer newer_asym (reclaimable_containers ctrs),
        reclaimable_containers-AllStopped ctrs,
      )
