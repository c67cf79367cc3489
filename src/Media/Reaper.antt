-- ===== src/Media/Reaper.antt =====
-- The storage reaper: internal/media/app/reaper_service.go, with the reads and the delete of
-- internal/media/adapter/chore_photo_postgres.go and photo_postgres.go. The object store lists a
-- class by the namespace of its keys; whether a delete in it fails is an argument.
pub mod Referenced
pub mod Sweep
pub mod DryRun
use nestova.Base.{
  ℕ, suc, ◌+◌, Bool, true, false, not, ◌&&◌, ◌||◌, List, [], ◌∷◌, ◌++◌, map, Result, ok, err, ltb,
  ◌==◌, if◌then◌else◌, length, any, count, select,
}
use nestova.Clock.{Time}
use nestova.Text.{same_bytes}
use nestova.Media.{StorageBackend, same_backend, TaskInstancePhoto, AlbumPhoto}
use nestova.Media.Chores.{is_uploaded_before, delete_uploaded_before}

pub data PhotoClass : Type 0 where
  album chore_proof reward_image : PhotoClass

abbrev pub same_class : PhotoClass → PhotoClass → Bool
same_class PhotoClass.album PhotoClass.album = true
same_class PhotoClass.chore_proof PhotoClass.chore_proof = true
same_class PhotoClass.reward_image PhotoClass.reward_image = true
same_class _ _ = false

abbrev pub StorageRef : Type 0
StorageRef = List ℕ

pub record ObjectInfo : Type 0 where
  pub key : StorageRef
  pub last_modified : Time

-- The rows of the two photo tables, and the stored objects.
pub record MediaState : Type 0 where
  pub albums : List AlbumPhoto
  pub chores : List TaskInstancePhoto
  pub objects : List ObjectInfo

pub record ReaperService : Type 0 where
  pub backend : StorageBackend
  pub grace_window : Time
  pub chore_proof_retention : Time
  pub class_of : StorageRef → PhotoClass
  pub delete_fails : StorageRef → Bool

abbrev pub has_ref : StorageRef → List StorageRef → Bool
has_ref ref refs = any (λ r. same_bytes r ref) refs

-- How often a reference occurs.
abbrev pub total : StorageRef → List StorageRef → ℕ
total ref refs = count (λ r. same_bytes r ref) refs

module _ (s : ReaperService) where
  -- ListAllStorageRefs and ListStorageRefsUploadedBefore
  unfoldable pub album_refs : List AlbumPhoto → List StorageRef
  album_refs [] = []
  album_refs (p ∷ photos) =
      let rest = album_refs photos in
      if same_backend p.storage_backend s.backend then p.storage_ref ∷ rest else rest

  unfoldable pub chore_refs : List TaskInstancePhoto → List StorageRef
  chore_refs [] = []
  chore_refs (p ∷ photos) =
      let rest = chore_refs photos in
      if same_backend p.storage_backend s.backend then p.storage_ref ∷ rest else rest

  unfoldable pub refs_uploaded_before : Time → List TaskInstancePhoto → List StorageRef
  refs_uploaded_before now [] = []
  refs_uploaded_before now (p ∷ photos) =
      let rest = refs_uploaded_before now photos in
      if is_uploaded_before s.backend s.chore_proof_retention now p
      then p.storage_ref ∷ rest
      else rest

  abbrev pub referenced_refs : MediaState → List StorageRef
  referenced_refs db = album_refs db.albums ++ chore_refs db.chores

  abbrev pub exists_by_storage_ref : StorageRef → MediaState → Bool
  exists_by_storage_ref ref db =
      has_ref ref (album_refs db.albums) || has_ref ref (chore_refs db.chores)

  abbrev pub is_orphan : PhotoClass → Time → List StorageRef → ObjectInfo → Bool
  is_orphan class now referenced o =
      same_class (s.class_of o.key) class
      && not (has_ref o.key referenced)
      && not (ltb now (o.last_modified + s.grace_window))

  unfoldable pub orphan_candidates :
      PhotoClass → Time → List StorageRef → List ObjectInfo → List StorageRef
  orphan_candidates class now referenced objects =
      map (λ o. o.key) (select (is_orphan class now referenced) objects)

  abbrev pub without_object : StorageRef → MediaState → MediaState
  without_object ref db = record db {
    objects = select (λ o. not (same_bytes o.key ref)) db.objects;
  }

  abbrev pub plus_one : MediaState × Result StorageRef ℕ → MediaState × Result StorageRef ℕ
  plus_one (db, ok n) = (db, ok (suc n))
  plus_one (db, err e) = (db, err e)

  abbrev pub cons_count :
      ℕ → MediaState × Result StorageRef (List ℕ) → MediaState × Result StorageRef (List ℕ)
  cons_count n (db, ok ns) = (db, ok (n ∷ ns))
  cons_count n (db, err e) = (db, err e)

  -- One class after the other, until an error.
  abbrev pub then_rest :
      (MediaState → MediaState × Result StorageRef (List ℕ))
      → MediaState × Result StorageRef ℕ
      → MediaState × Result StorageRef (List ℕ)
  then_rest rest (db, ok n) = cons_count n (rest db)
  then_rest rest (db, err e) = (db, err e)

  -- The state after it, and how many objects were deleted; an error ends the run.
  unfoldable pub delete_candidates : List StorageRef → MediaState → MediaState × Result StorageRef ℕ
  delete_candidates [] db = (db, ok 0)
  delete_candidates (ref ∷ refs) db =
      let skipped = delete_candidates refs db in
      let deleted = plus_one (delete_candidates refs (without_object ref db)) in
      if exists_by_storage_ref ref db
      then skipped
      else (if s.delete_fails ref then (db, err ref) else deleted)

  unfoldable pub sweep :
      List PhotoClass
      → Time
      → List StorageRef
      → MediaState
      → MediaState × Result StorageRef (List ℕ)
  sweep [] now referenced db = (db, ok [])
  sweep (class ∷ classes) now referenced db =
      then_rest (λ db'. sweep classes now referenced db')
        (delete_candidates (orphan_candidates class now referenced db.objects) db)

  abbrev pub reaped_classes : List PhotoClass
  reaped_classes = PhotoClass.album ∷ PhotoClass.chore_proof ∷ []

  abbrev pub retains : Bool
  retains = ltb 0 s.chore_proof_retention

  -- The tables after the retention pass.
  abbrev pub retained : Time → MediaState → MediaState
  retained now db =
      if retains
      then record db {
        chores = delete_uploaded_before s.backend s.chore_proof_retention now db.chores;
      }
      else db

  abbrev pub retention_rows : Time → MediaState → ℕ
  retention_rows now db =
      if retains
      then count (is_uploaded_before s.backend s.chore_proof_retention now) db.chores
      else 0

  -- How many rows were deleted, and how many objects, by class.
  unfoldable pub reap : Time → MediaState → MediaState × Result StorageRef (ℕ × List ℕ)
  reap now db =
      let db' = retained now db in
      let swept = sweep reaped_classes now (referenced_refs db') db' in
      (swept.0, elim swept.1 [ ok ns ↦ ok (retention_rows now db, ns) | err e ↦ err e ])

  abbrev pub retention_refs : Time → MediaState → List StorageRef
  retention_refs now db = if retains then refs_uploaded_before now db.chores else []

  unfoldable pub dry_run_referenced_refs : List StorageRef → MediaState → List StorageRef
  dry_run_referenced_refs doomed db =
      let refs = chore_refs db.chores in
      album_refs db.albums ++ select (λ ref. ltb (total ref doomed) (total ref refs)) refs

  -- How many rows would go, and the objects that would, by class.
  unfoldable pub dry_run : Time → MediaState → ℕ × List (List StorageRef)
  dry_run now db =
      let doomed = retention_refs now db in
      let referenced = dry_run_referenced_refs doomed db in
      (
        length doomed,
        map (λ class. orphan_candidates class now referenced db.objects) reaped_classes,
      )
