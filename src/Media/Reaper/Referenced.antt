-- ===== src/Media/Reaper/Referenced.antt =====
-- The references that a dry run takes for live: internal/media/app/reaper_service.go
-- (dryRunReferencedRefs).
use nestova.Base.{
  ◌+◌, ◌≡◌, refl, ap, ◌∙◌, Bool, ◌&&◌, ◌||◌, List, [], ◌∷◌, ◌++◌, ltb, length, any, count, select,
  arith, Bool-cases, inl, inr,
}
use nestova.Clock.{Time}
use nestova.Text.{same_bytes, eq_of_bytes}
use nestova.Media.{same_backend, TaskInstancePhoto}
use nestova.Media.Chores.{is_uploaded_before, delete_uploaded_before}
use nestova.Media.Reaper.{
  StorageRef, MediaState, ReaperService, has_ref, album_refs, chore_refs, refs_uploaded_before,
  referenced_refs, retains, retained, retention_refs, retention_rows, total,
  dry_run_referenced_refs,
}

pub has_ref-append :
    (ref : StorageRef) (xs ys : List StorageRef)
    → has_ref ref (xs ++ ys) ≡ (has_ref ref xs || has_ref ref ys)
unfolding any
has_ref-append ref [] ys = refl
has_ref-append ref (x ∷ xs) ys =
    ground (arith, Bool-cases (same_bytes x ref), has_ref-append ref xs ys)

-- A selection by a test of the reference keeps those that pass it.
has_ref-select :
    (q : StorageRef → Bool) (ref : StorageRef) (xs : List StorageRef)
    → has_ref ref (select q xs) ≡ (has_ref ref xs && q ref)
unfolding any select
has_ref-select q ref [] = refl
has_ref-select q ref (x ∷ xs) =
    let ih = has_ref-select q ref xs in
    elim (Bool-cases (same_bytes x ref)) [
      | inl own ↦
          let e : q x ≡ q ref = ap q (eq_of_bytes x ref own) in
          elim (Bool-cases (q ref)) [
            | inl t ↦ rw (e, t) (rw own refl)
            | inr t ↦ rw (e, t) (ih ∙ ground (arith, t, Bool-cases (has_ref ref xs)))
          ]
      | inr other ↦ elim (Bool-cases (q x)) [
        | inl t ↦ rw t (rw other ih)
        | inr t ↦ rw (t, other) ih
      ]
    ]

has_ref-total : (ref : StorageRef) (xs : List StorageRef) → has_ref ref xs ≡ ltb 0 (total ref xs)
unfolding any count
has_ref-total ref [] = refl
has_ref-total ref (x ∷ xs) = ground (arith, Bool-cases (same_bytes x ref), has_ref-total ref xs)

live_lem :
    (ref : StorageRef) (albums doomed left refs : List StorageRef)
    → total ref refs ≡ total ref doomed + total ref left
    → has_ref ref (albums ++ select (λ r. ltb (total r doomed) (total r refs)) refs)
      ≡ has_ref ref (albums ++ left)
live_lem ref albums doomed left refs e = ground (
  arith,
  e,
  has_ref-append ref albums (select (λ r. ltb (total r doomed) (total r refs)) refs),
  has_ref-append ref albums left,
  has_ref-select (λ r. ltb (total r doomed) (total r refs)) ref refs,
  has_ref-total ref refs,
  has_ref-total ref left,
)

module _ (s : ReaperService) where
  -- The retention pass takes the references that it lists.
  total_split :
      (ref : StorageRef) (now : Time) (photos : List TaskInstancePhoto)
      → total ref (chore_refs s photos)
        ≡ total ref (refs_uploaded_before s now photos)
          + total ref
              (chore_refs s (delete_uploaded_before s.backend s.chore_proof_retention now photos))
  unfolding count chore_refs refs_uploaded_before delete_uploaded_before select
  total_split ref now [] = refl
  total_split ref now (p ∷ photos) =
      let ih = total_split ref now photos in
      elim (Bool-cases (same_backend p.storage_backend s.backend)) [
        | inr other ↦ rw other (rw other ih)
        | inl own ↦ elim (Bool-cases (ltb (p.uploaded_at + s.chore_proof_retention) now)) [
          | inl old ↦ rw (own, old) (ground (arith, Bool-cases (same_bytes p.storage_ref ref), ih))
          | inr new ↦
              rw (own, new) (rw own (ground (arith, Bool-cases (same_bytes p.storage_ref ref), ih)))
        ]
      ]

  -- What a dry run takes for referenced is what is referenced after the retention pass.
  pub dry_run_referenced-has_ref :
      (ref : StorageRef) (now : Time) (db : MediaState)
      → has_ref ref (dry_run_referenced_refs s (retention_refs s now db) db)
        ≡ has_ref ref (referenced_refs s (retained s now db))
  unfolding dry_run_referenced_refs
  dry_run_referenced-has_ref ref now db = elim (Bool-cases (retains s)) [
    | inl on ↦ rw on (
        live_lem ref (album_refs s db.albums) (refs_uploaded_before s now db.chores)
          (chore_refs s (delete_uploaded_before s.backend s.chore_proof_retention now db.chores))
          (chore_refs s db.chores) (total_split ref now db.chores))
    | inr off ↦ rw off (
        live_lem ref (album_refs s db.albums) [] (chore_refs s db.chores) (chore_refs s db.chores)
          (unfold count in omega arith))
  ]

  pub retention_refs-rows :
      (now : Time) (db : MediaState) → length (retention_refs s now db) ≡ retention_rows s now db
  unfolding refs_uploaded_before count
  retention_refs-rows now db = elim (Bool-cases (retains s)) [
    | inl on ↦ rw on (plus_one db.chores)
    | inr off ↦ rw off refl
  ]
    where
      plus_one :
          (photos : List TaskInstancePhoto)
          → length (refs_uploaded_before s now photos)
            ≡ count (is_uploaded_before s.backend s.chore_proof_retention now) photos
      plus_one [] = refl
      plus_one (p ∷ photos) = ground (
        arith,
        Bool-cases (is_uploaded_before s.backend s.chore_proof_retention now p),
        plus_one photos,
      )
