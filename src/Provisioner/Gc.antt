-- ===== src/Provisioner/Gc.antt =====
-- pkg/provisioner/gc.go: what an operator may free, and the plan of what he confirmed. The two
-- lists are Docker's answers, the images already narrowed to dangling ones and the containers to
-- those with the label of a deployment, as the filters of the calls ask.
pub mod Handler
pub mod Accounting
pub mod Safety
pub mod Listing
use agentry.Base.{
  ℕ, ◌<◌, ◌≡◌, Bool, true, false, not, ◌&&◌, ◌||◌, Option, none, some, List, [], ◌∷◌, ◌++◌, map,
  ltb, ◌==◌, if◌then◌else◌, Text, codes, str_eq, trim_prefix, length, take, Map, lookup, insert,
  stable_sort, Result, ok, err, ◌>>=◌,
}
use agentry.Provisioner.{Reply, writes_json, writes_error}
use agentry.Base.Int.{ℤ, pos, ltb_ℤ, add64}

-- Docker's image.Summary and types.Container, with the fields that are read.
pub record ImageSummary : Type 0 where
  pub id : Text
  pub repo_tags : List Text
  pub size : ℤ
  pub created : ℤ

pub record ContainerSummary : Type 0 where
  pub id : Text
  pub names : List Text
  pub image : Text
  pub state : Text
  pub status : Text
  pub created : ℤ

pub record GcImageCandidate : Type 0 where
  pub id : Text
  pub short_id : Text
  pub tags : List Text
  pub size_bytes : ℤ
  pub created : ℤ

pub record GcContainerCandidate : Type 0 where
  pub id : Text
  pub short_id : Text
  pub name : Text
  pub image : Text
  pub state : Text
  pub status : Text
  pub created : ℤ

pub record GcCandidates : Type 0 where
  pub images : List GcImageCandidate
  pub containers : List GcContainerCandidate
  pub reclaimable_bytes : ℤ

unfoldable pub short_docker_id : Text → Text
short_docker_id id =
    let hex = trim_prefix id (codes "sha256:") in if ltb 12 (length hex) then take 12 hex else hex

unfoldable pub first_name : List Text → Text
first_name [] = []
first_name (n ∷ ns) = n

unfoldable pub gc_container_reclaimable : Text → Bool
gc_container_reclaimable state =
    str_eq state (codes "exited") || (str_eq state (codes "created") || str_eq state (codes "dead"))

unfoldable pub tags_of : List Text → List Text
tags_of [] = codes "<none>:<none>" ∷ []
tags_of (t ∷ ts) = t ∷ ts

unfoldable pub image_candidate : ImageSummary → GcImageCandidate
image_candidate im = record {
  id = im.id;
  short_id = short_docker_id im.id;
  tags = tags_of im.repo_tags;
  size_bytes = im.size;
  created = im.created;
}

unfoldable pub container_candidate : ContainerSummary → GcContainerCandidate
container_candidate c = record {
  id = c.id;
  short_id = short_docker_id c.id;
  name = trim_prefix (first_name c.names) (codes "/");
  image = c.image;
  state = c.state;
  status = c.status;
  created = c.created;
}

-- The loop over the containers, with its `continue`.
unfoldable pub reclaimable_containers : List ContainerSummary → List GcContainerCandidate
unfolding container_candidate
reclaimable_containers [] = []
reclaimable_containers (c ∷ cs) =
    let rest = reclaimable_containers cs in
    if gc_container_reclaimable c.state then container_candidate c ∷ rest else rest

unfoldable pub bytes_of : ℤ → List ImageSummary → ℤ
bytes_of total [] = total
bytes_of total (im ∷ ims) = bytes_of (add64 total im.size) ims

-- Biggest images first, newest containers first.
abbrev pub bigger : GcImageCandidate → GcImageCandidate → Bool
bigger a b = ltb_ℤ b.size_bytes a.size_bytes

abbrev pub newer : GcContainerCandidate → GcContainerCandidate → Bool
newer a b = ltb_ℤ b.created a.created

unfoldable pub gc_collect_candidates :
    Result (List ImageSummary) → Result (List ContainerSummary) → Result GcCandidates
gc_collect_candidates image_list container_list = image_list >>= λ imgs. container_list >>= λ ctrs.
    ok (record {
      images = stable_sort bigger (map image_candidate imgs);
      containers = stable_sort newer (reclaimable_containers ctrs);
      reclaimable_bytes = bytes_of (pos 0) imgs;
    })

pub record GcRequest : Type 0 where
  pub image_ids : List Text
  pub container_ids : List Text

pub record GcError : Type 0 where
  pub id : Text
  pub error : Text

pub record GcResult : Type 0 where
  pub removed_images : List Text
  pub removed_containers : List Text
  pub reclaimed_bytes : ℤ
  pub errors : List GcError

pub record GcPlanImage : Type 0 where
  pub id : Text
  pub size : ℤ

pub record GcPlan : Type 0 where
  pub images : List GcPlanImage
  pub container_ids : List Text
  pub errors : List GcError

-- imgSize and validContainer, filled in the order of the candidates.
unfoldable pub img_size : List GcImageCandidate → Map ℤ → Map ℤ
img_size [] sizes = sizes
img_size (im ∷ ims) sizes = img_size ims (insert im.id im.size_bytes sizes)

unfoldable pub valid_container : List GcContainerCandidate → Map (Unit {0}) → Map (Unit {0})
valid_container [] valid = valid
valid_container (c ∷ cs) valid = valid_container cs (insert c.id tt valid)

abbrev pub gc_error : Text → Text → GcError
gc_error id message = record { id = id; error = message }

unfoldable pub plan_containers : Map (Unit {0}) → List Text → List Text × List GcError
plan_containers valid [] = ([], [])
plan_containers valid (id ∷ ids) =
    let (kept, errors) = plan_containers valid ids in
    elim (lookup id valid) [
      | none ↦ (
        kept,
        gc_error id (codes "not a reclaimable container (running, unknown, or already gone)")
            ∷ errors,
      )
      | some _ ↦ (id ∷ kept, errors)
    ]

unfoldable pub plan_images : Map ℤ → List Text → List GcPlanImage × List GcError
plan_images sizes [] = ([], [])
plan_images sizes (id ∷ ids) =
    let (kept, errors) = plan_images sizes ids in
    elim (lookup id sizes) [
      | none ↦ (
        kept,
        gc_error id (codes "not a reclaimable image (tagged, in use, or already gone)") ∷ errors,
      )
      | some size ↦ (record { id = id; size = size } ∷ kept, errors)
    ]

unfoldable pub gc_plan_removals : GcCandidates → GcRequest → GcPlan
gc_plan_removals cands req =
    let (containers, unknown) =
      plan_containers (valid_container cands.containers []) req.container_ids in
    let (images, foreign) = plan_images (img_size cands.images []) req.image_ids in
    record { images = images; container_ids = containers; errors = unknown ++ foreign }
