-- ===== src/Media/Reaper/DryRun.antt =====
-- What a dry run of the reaper says of the run: internal/media/app/reaper_service.go (DryRun).
use nestova.Base.{
  suc, ◌≡◌, refl, sym, ap, ◌∙◌, subst, true, false, not, List, [], ◌∷◌, ◌++◌, map, ok, length, any,
  select, All, All-map, arith, Bool-cases, inl, inr,
}
use nestova.Clock.{Time}
use nestova.Text.{same_bytes, eq_of_bytes}
use nestova.Media.Reaper.{
  PhotoClass, same_class, StorageRef, ObjectInfo, MediaState, ReaperService, has_ref, album_refs,
  chore_refs, referenced_refs, exists_by_storage_ref, is_orphan, orphan_candidates, without_object,
  delete_candidates, sweep, reaped_classes, retains, retained, retention_rows, reap, retention_refs,
  dry_run_referenced_refs, dry_run,
}
use nestova.Media.Reaper.Referenced.{
  has_ref-append, dry_run_referenced-has_ref, retention_refs-rows,
}
use nestova.Media.Reaper.Sweep.{is_kept, without_objects, select-kept, select-kept_none, select-one}

abbrev pub concat : List (List StorageRef) → List StorageRef
concat [] = []
concat (refs ∷ rest) = refs ++ concat rest

module _ (s : ReaperService) (now : Time)
    (works : (ref : StorageRef) → s.delete_fails ref ≡ false) where
  -- References that nothing holds are all deleted.
  delete_all :
      (refs : List StorageRef) (db : MediaState)
      → All (λ ref. exists_by_storage_ref s ref db ≡ false) refs
      → delete_candidates s refs db ≡ (without_objects refs db, ok (length refs))
  unfolding delete_candidates
  delete_all [] db h =
      ap (λ (os : List ObjectInfo). (record db { objects = os }, ok 0))
        (sym (select-kept_none db.objects))
  delete_all (ref ∷ refs) db (h, hs) =
      let left = select-one ref db.objects in
      let kept : select (is_kept refs) (select (λ o. not (same_bytes o.key ref)) db.objects)
          ≡ select (is_kept (ref ∷ refs)) db.objects =
        ap (λ (os : List ObjectInfo). select (is_kept refs) os) left
        ∙ select-kept (ref ∷ []) refs db.objects in
      rw (h, works ref, delete_all refs (without_object s ref db) hs)
        (ap (λ (os : List ObjectInfo). (record db { objects = os }, ok (suc (length refs)))) kept)

  candidates_free :
      (class : PhotoClass) (referenced : List StorageRef) (objects : List ObjectInfo)
      → All
          (λ ref. has_ref ref referenced ≡ false)
          (orphan_candidates s class now referenced objects)
  unfolding orphan_candidates select
  candidates_free class referenced [] = tt
  candidates_free class referenced (o ∷ objects) =
      let rest = candidates_free class referenced objects in
      elim (Bool-cases (is_orphan s class now referenced o)) [
        | inl t ↦ rw t (ground (arith, t), rest)
        | inr t ↦ rw t rest
      ]

  -- Candidates have the class.
  candidates-class :
      (class : PhotoClass) (referenced : List StorageRef) (objects : List ObjectInfo)
      (key : StorageRef)
      → has_ref key (orphan_candidates s class now referenced objects) ≡ true
      → same_class (s.class_of key) class ≡ true
  unfolding orphan_candidates select any
  candidates-class class referenced [] key = λ h. cc
  candidates-class class referenced (o ∷ objects) key =
      elim (Bool-cases (is_orphan s class now referenced o)) [
        | inr t ↦ rw t (candidates-class class referenced objects key)
        | inl t ↦ rw t (λ h. elim (Bool-cases (same_bytes o.key key)) [
          | inl own ↦
              subst (λ k. same_class (s.class_of k) class ≡ true) (eq_of_bytes o.key key own)
                (ground (arith, t))
          | inr other ↦ candidates-class class referenced objects key (ground (arith, h, other))
        ])
      ]

  -- Deleting objects of one class leaves the candidates of another.
  candidates_left :
      (class : PhotoClass) (referenced gone : List StorageRef) (objects : List ObjectInfo)
      → ((key : StorageRef) → has_ref key gone ≡ true → same_class (s.class_of key) class ≡ false)
      → orphan_candidates s class now referenced (select (is_kept gone) objects)
        ≡ orphan_candidates s class now referenced objects
  unfolding orphan_candidates select
  candidates_left class referenced gone [] other = refl
  candidates_left class referenced gone (o ∷ objects) other =
      let ih = candidates_left class referenced gone objects other in
      elim (Bool-cases (has_ref o.key gone)) [
        | inl t ↦
            let foreign : is_orphan s class now referenced o ≡ false =
              ground (arith, other o.key t) in
            rw (t, foreign) ih
        | inr t ↦ elim (Bool-cases (is_orphan s class now referenced o)) [
          | inl u ↦ rw t (rw u (ap (λ rest. o.key ∷ rest) ih))
          | inr u ↦ rw t (rw u ih)
        ]
      ]

  candidates_by :
      (class : PhotoClass) (first second : List StorageRef) (objects : List ObjectInfo)
      → ((ref : StorageRef) → has_ref ref first ≡ has_ref ref second)
      → orphan_candidates s class now first objects ≡ orphan_candidates s class now second objects
  unfolding orphan_candidates select
  candidates_by class first second [] e = refl
  candidates_by class first second (o ∷ objects) e =
      let ih = candidates_by class first second objects e in
      elim (Bool-cases (is_orphan s class now second o)) [
        | inl t ↦
            let u : is_orphan s class now first o ≡ true = rw (e o.key) t in
            rw (t, u) (ap (λ rest. o.key ∷ rest) ih)
        | inr t ↦ let u : is_orphan s class now first o ≡ false = rw (e o.key) t in rw (t, u) ih
      ]

  append_none : (refs : List StorageRef) → refs ++ [] ≡ refs
  append_none [] = refl
  append_none (ref ∷ refs) = ap (λ rest. ref ∷ rest) (append_none refs)

  -- A sweep of two classes deletes the candidates that each has at the start.
  sweep_all :
      (referenced : List StorageRef) (db : MediaState)
      → ((ref : StorageRef) → exists_by_storage_ref s ref db ≡ has_ref ref referenced)
      → let first = orphan_candidates s PhotoClass.album now referenced db.objects in
        let second = orphan_candidates s PhotoClass.chore_proof now referenced db.objects in
        sweep s (reaped_classes s) now referenced db
        ≡ (without_objects (first ++ second) db, ok (length first ∷ length second ∷ []))
  unfolding sweep
  sweep_all referenced db same =
      let first = orphan_candidates s PhotoClass.album now referenced db.objects in
      let second = orphan_candidates s PhotoClass.chore_proof now referenced db.objects in
      let free = λ (refs : List StorageRef) (h : All (λ ref. has_ref ref referenced ≡ false) refs).
        All-map (λ ref. has_ref ref referenced ≡ false)
          (λ ref. exists_by_storage_ref s ref db ≡ false) refs (λ ref k. same ref ∙ k) h in
      let one =
        delete_all first db (free first (candidates_free PhotoClass.album referenced db.objects)) in
      let unchanged = candidates_left PhotoClass.chore_proof referenced first db.objects (λ key h.
        only_album (s.class_of key)
          (candidates-class PhotoClass.album referenced db.objects key h)) in
      let two =
        delete_all second (without_objects first db)
          (free second (candidates_free PhotoClass.chore_proof referenced db.objects)) in
      rw (one, unchanged, two)
        (ap
          (λ (os : List ObjectInfo).
            (record db { objects = os }, ok (length first ∷ length second ∷ [])))
          (select-kept first second db.objects))
    where
      only_album :
          (c : PhotoClass)
          → same_class c PhotoClass.album ≡ true
          → same_class c PhotoClass.chore_proof ≡ false
      only_album PhotoClass.album h = refl
      only_album PhotoClass.chore_proof h = cc
      only_album PhotoClass.reward_image h = refl

  objects_kept : (db : MediaState) → (retained s now db).objects ≡ db.objects
  objects_kept db = elim (Bool-cases (retains s)) [ inl on ↦ rw on refl | inr off ↦ rw off refl ]

  -- A dry run says what a run does: where no row changes and the object store does not fail, the run
  -- deletes as many rows as the dry run says and exactly the objects that it lists, reports their
  -- numbers by class, and changes nothing else.
  pub reap-dry_run :
      (db : MediaState)
      → let (rows, would) = dry_run s now db in
        reap s now db ≡ (
          without_objects (concat would) (retained s now db),
          ok (rows, map (λ refs. length refs) would),
        )
  unfolding reap dry_run
  reap-dry_run db =
      let left = retained s now db in
      let doomed = retention_refs s now db in
      let same = λ (ref : StorageRef).
        has_ref-append ref (album_refs s left.albums) (chore_refs s left.chores) in
      let swept = sweep_all (referenced_refs s left) left (λ ref. sym (same ref)) in
      let by = λ (class : PhotoClass).
        candidates_by class (dry_run_referenced_refs s doomed db) (referenced_refs s left)
          db.objects (λ ref. dry_run_referenced-has_ref s ref now db) in
      let kept : left.objects ≡ db.objects = objects_kept db in
      rw
        (
          by PhotoClass.album,
          by PhotoClass.chore_proof,
          append_none
              (orphan_candidates s PhotoClass.chore_proof now (referenced_refs s left) db.objects),
          retention_refs-rows s now db,
          swept,
        )
        (ap
          (λ (os : List ObjectInfo).
            let first = orphan_candidates s PhotoClass.album now (referenced_refs s left) os in
            let second =
              orphan_candidates s PhotoClass.chore_proof now (referenced_refs s left) os in
            (
              without_objects (first ++ second) left,
              ok (retention_rows s now db, length first ∷ length second ∷ []),
            ))
          kept)
