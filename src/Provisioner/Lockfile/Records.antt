-- ===== src/Provisioner/Lockfile/Records.antt =====
-- pkg/provisioner/lockfile.go: what a recorded binding is worth.
use agentry.Base.{
  inl, inr, eq_of_str_eq, subst, if◌then◌else◌, Bool-cases, Bool-cases, ℕ, suc, ◌≡◌, refl, ◌∙◌,
  true, false, Option, none, some, List, [], ◌∷◌, ◌++◌, arith, if◌then◌else◌, Text, is_empty, Bool,
  not, ◌&&◌, ◌+◌, ◌^◌, ltb, length, contains_byte, valid_utf8, str_eq, str_eq_refl, str_eq_iff, ok,
}
use agentry.Provisioner.Backend.{Backend}
use agentry.Provisioner.Lockfile.{
  LockedBinding, Lockfile, lockfile_path, FileApi, Codec, has_runtime, runtime_file_read,
  runtime_file_write, read_lockfile, write_lockfile, lock_or_new, update_lockfile, without_service,
  with_binding, find_binding, record_binding_in_lockfile, find_existing_binding,
}

find_binding-same :
    (b : LockedBinding) (bs : List LockedBinding)
    → find_binding b.service (without_service b.service bs ++ b ∷ []) ≡ some b
unfolding find_binding without_service
find_binding-same b [] = ground (arith, str_eq_refl b.service)
find_binding-same b (a ∷ bs) = ground (arith, find_binding-same b bs)

find_binding-other :
    (b : LockedBinding) (k : Text) (bs : List LockedBinding)
    → str_eq b.service k ≡ false
    → find_binding k (without_service b.service bs ++ b ∷ []) ≡ find_binding k bs
unfolding find_binding without_service
find_binding-other b k [] h = ground (arith, h)
find_binding-other b k (a ∷ bs) h = ground (
  arith,
  find_binding-other b k bs h,
  str_eq_iff a.service b.service,
  str_eq_iff a.service k,
  str_eq_iff b.service k,
  h,
)

-- The entries of a service.
abbrev pub entries_of : Text → List LockedBinding → ℕ
entries_of k [] = 0
entries_of k (b ∷ bs) = let rest = entries_of k bs in if str_eq b.service k then suc rest else rest

entries_of-without_service :
    (b : LockedBinding) (bs : List LockedBinding)
    → entries_of b.service (without_service b.service bs ++ b ∷ []) ≡ 1
unfolding without_service
entries_of-without_service b [] = ground (arith, str_eq_refl b.service)
entries_of-without_service b (a ∷ bs) = ground (arith, entries_of-without_service b bs)

-- What the runtime's FileReadHandler gives back whole once a line feed is written behind it: a text
-- below its limit of 1 MiB, in UTF-8, with no carriage return, which it may take for a part of the end
-- of a line.
abbrev pub fits : Text → Bool
fits text =
    not (is_empty text)
    && (ltb (length text + 1) (2 ^ 20) && (valid_utf8 text && not (contains_byte text 13)))

-- A runtime that answers and keeps the lockfile: it gives it back without the line feed at its end.
pub record KeepsFiles {World : Type 0} (backend : Backend World) (api : FileApi World)
    (codec : Codec) (id : Text) : Type 0 where
  pub reachable : (w : World) → has_runtime backend api codec id w ≡ true
  pub writes : (content : Text) (w : World) → (api.write_file id lockfile_path content w).0 ≡ ok 200
  pub reads :
      (text : Text) (w : World)
      → fits text ≡ true
      → (raw : Text) × (api.read_file id lockfile_path
            (api.write_file id lockfile_path (text ++ 10 ∷ []) w).1
          ≡ ok (200, raw))
        × (codec.data_content raw ≡ some text)

module _ {World : Type 0} (backend : Backend World) (api : FileApi World) (codec : Codec)
    (id : Text) (keeps : KeepsFiles backend api codec id) where
  runtime_file_write-done :
      (content : Text) (w : World)
      → runtime_file_write backend api codec id lockfile_path content w
        ≡ (none, (api.write_file id lockfile_path content w).1)
  unfolding runtime_file_write
  runtime_file_write-done content w = rw (keeps.reachable w, keeps.writes content w) refl

  runtime_file_read-written :
      (text : Text) (w : World)
      → fits text ≡ true
      → runtime_file_read backend api codec id lockfile_path
          (api.write_file id lockfile_path (text ++ 10 ∷ []) w).1
        ≡ ok text
  unfolding runtime_file_read
  runtime_file_read-written [] w h = unfold is_empty in cc h
  runtime_file_read-written (c ∷ s) w h =
      let (raw, answered, enclosed) = keeps.reads (c ∷ s) w h in
      rw
        (
          keeps.reachable (api.write_file id lockfile_path ((c ∷ s) ++ 10 ∷ []) w).1,
          answered,
          enclosed,
        )
        refl

  full_of : (text : Text) → fits text ≡ true → is_empty text ≡ false
  full_of text h = ground arith

  -- What was written last is read.
  write_lockfile-read_lockfile :
      (lock : Lockfile) (w : World)
      → fits (codec.encode lock) ≡ true
      → codec.decode (codec.encode lock) ≡ some lock
      → (w' : World) × (write_lockfile backend api codec id lock w ≡ (none, w'))
        × (read_lockfile backend api codec id w' ≡ ok (some lock))
  unfolding write_lockfile read_lockfile
  write_lockfile-read_lockfile lock w small decodes =
      let text : Text = codec.encode lock in
      (
        (api.write_file id lockfile_path (text ++ 10 ∷ []) w).1,
        runtime_file_write-done (text ++ 10 ∷ []) w,
        rw (runtime_file_read-written text w small, full_of text small, decodes, read_lockfile)
            refl,
      )

  -- Where the lockfile with the binding is a text that the runtime gives back whole and that decodes
  -- to it, the binding that is recorded is the one that is found for its service, and the only one,
  -- and what is found for any other service is what was found before. The runtime is reachable and
  -- takes the write.
  pub record_binding_in_lockfile-find_existing_binding :
      (cluster : Text) (b : LockedBinding) (k : Text) (w : World) {before : Option Lockfile}
      → read_lockfile backend api codec id w ≡ ok before
      → fits (codec.encode (with_binding b (lock_or_new cluster before))) ≡ true
      → codec.decode (codec.encode (with_binding b (lock_or_new cluster before)))
        ≡ some (with_binding b (lock_or_new cluster before))
      → (w' : World) × (record_binding_in_lockfile backend api codec cluster id b w ≡ (none, w'))
        × (find_existing_binding backend api codec id k w' ≡ (
            if str_eq b.service k then some b else find_existing_binding backend api codec id k w))
        × (entries_of b.service (with_binding b (lock_or_new cluster before)).bindings ≡ 1)
  unfolding record_binding_in_lockfile update_lockfile with_binding find_existing_binding
  record_binding_in_lockfile-find_existing_binding cluster b k w {before} read small decodes =
      let lock : Lockfile = lock_or_new cluster before in
      let (w', written, reread) =
        write_lockfile-read_lockfile (with_binding b lock) w small decodes in
      (
        w',
        rw (read, update_lockfile) written,
        elim (Bool-cases (str_eq b.service k)) [
          | inl this ↦
              rw (this, reread, find_existing_binding)
                (subst (λ s. find_binding s (with_binding b lock).bindings ≡ some b)
                  (eq_of_str_eq b.service k this) (find_binding-same b lock.bindings))
          | inr other ↦
              rw (other, reread, read, find_existing_binding)
                (find_binding-other b k lock.bindings other ∙ unread before)
        ],
        entries_of-without_service b lock.bindings,
      )
    where
      unread :
          (l : Option Lockfile)
          → find_binding k (lock_or_new cluster l).bindings
            ≡ elim l as (λ _. Option LockedBinding) [
              | none ↦ none
              | some lock ↦ find_binding k lock.bindings
            ]
      unread none = unfold find_binding in refl
      unread (some lock) = refl
