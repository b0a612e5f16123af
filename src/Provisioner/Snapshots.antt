-- ===== src/Provisioner/Snapshots.antt =====
-- pkg/provisioner/provisioner.go: handleSnapshot and handleRestore, by commands in the sandbox.
pub mod Chunks
use agentry.Base.{
  ℕ, zero, suc, ◌+◌, ◌-◌, ◌*◌, ◌≤◌, ◌<◌, ◌≡◌, refl, Bool, true, false, not, ◌&&◌, Option, none,
  some, List, [], ◌∷◌, ◌++◌, arith, if◌then◌else◌, Text, codes, is_empty, str_eq, trim_space,
  decimal, take, drop, length, length-take, length-drop, Result, ok, err, All, Bool-cases, inl, inr,
}
use agentry.Provisioner.{Reply, writes_json, writes_error}
use agentry.Provisioner.Backend.{Backend, pod_name}
use agentry.Provisioner.Sandboxes.{Config, Env}

pub record Snapshot : Type 0 where
  pub snapshot : Text
  pub size : ℕ
  pub sandbox_id : Text

abbrev bash : Text → List Text
bash script = codes "bash" ∷ codes "-c" ∷ script ∷ []

abbrev pub chunk_size : ℕ
chunk_size = 50_000

-- The chunks of a text, by a fuel of its length: each round takes one byte at least.
unfoldable pub chunks_from : ℕ → Text → List Text
chunks_from zero s = []
chunks_from (suc fuel) [] = []
chunks_from (suc fuel) (c ∷ s) =
    take chunk_size (c ∷ s) ∷ chunks_from fuel (drop chunk_size (c ∷ s))

unfoldable pub chunks_of : Text → List Text
unfolding chunks_from
chunks_of s = chunks_from (length s) s

abbrev snapshot_script : Text
snapshot_script =
    codes "cd /workspace && tar czf - --exclude=node_modules --exclude=.cache --exclude=dist "
    ++ codes "--exclude=build --exclude=.npm . 2>/dev/null | base64"

abbrev clear_script : Text
clear_script = codes "rm -f /tmp/snapshot.tar.gz"

abbrev pub write_script : Text → Text
write_script chunk = codes "echo '" ++ (chunk ++ codes "' | base64 -d >> /tmp/snapshot.tar.gz")

abbrev extract_script : Text
extract_script =
    codes "cd /workspace && tar xzf /tmp/snapshot.tar.gz 2>&1 && rm -f /tmp/snapshot.tar.gz"

module _ {World Quantity : Type 0} (env : Env World Quantity) where
  unfoldable pub handle_snapshot : Text → World → Reply Snapshot × World
  handle_snapshot id w =
      let phase = env.backend.get_pod_phase (pod_name id) w in
      let (output, w') = env.backend.exec_in_pod (pod_name id) (bash snapshot_script) w in
      if not (str_eq phase (codes "Running"))
      then (
        writes_error 404
            (codes "sandbox '" ++ (id ++ (codes "' not running (phase: " ++ (phase ++ codes ")")))),
        w,
      )
      else elim output [
        | err e ↦ (writes_error 500 (codes "snapshot failed: " ++ e), w')
        | ok out ↦ (
          writes_json 200
              (record { snapshot = trim_space out; size = length out; sandbox_id = id }),
          w',
        )
      ]

  -- The loop over the chunks: the number and the error of the one that fails.
  unfoldable pub write_chunks : ℕ → Text → List Text → World → Option (ℕ × Text) × World
  write_chunks i id [] w = (none, w)
  write_chunks i id (chunk ∷ chunks) w =
      let (output, w') = env.backend.exec_in_pod (pod_name id) (bash (write_script chunk)) w in
      elim output [ err e ↦ (some (i, e), w') | ok out ↦ write_chunks (i + 1) id chunks w' ]

  unfoldable pub extract_snapshot : Text → World → Reply Text × World
  extract_snapshot id w =
      let (output, w') = env.backend.exec_in_pod (pod_name id) (bash extract_script) w in
      elim output [
        | err e ↦ (writes_error 500 (codes "restore extract failed: " ++ e), w')
        | ok out ↦ (writes_json 200 id, w')
      ]

  -- A body that does not decode is an error; the answer is the id.
  unfoldable pub handle_restore : Text → Result Text → World → Reply Text × World
  handle_restore id (err e) w = (writes_error 400 (codes "missing 'snapshot' in request body"), w)
  handle_restore id (ok snapshot) w =
      if is_empty snapshot
      then (writes_error 400 (codes "missing 'snapshot' in request body"), w)
      else elim (str_eq (env.backend.get_pod_phase (pod_name id) w) (codes "Running")) [
        | false ↦ (writes_error 404 (codes "sandbox '" ++ (id ++ codes "' not running")), w)
        | true ↦
            let w1 = (env.backend.exec_in_pod (pod_name id) (bash clear_script) w).1 in
            let (failed, w2) = write_chunks 0 id (chunks_of snapshot) w1 in
            elim failed [
              | some (i, e) ↦ (
                writes_error 500
                    (codes "restore write failed at chunk " ++ (decimal i ++ (codes ": " ++ e))),
                w2,
              )
              | none ↦ extract_snapshot id w2
            ]
      ]
