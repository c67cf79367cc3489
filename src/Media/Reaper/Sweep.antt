-- ===== src/Media/Reaper/Sweep.antt =====
-- What a run of the reaper deletes, also where the object store fails in the middle:
-- internal/media/app/reaper_service.go (Run).
use nestova.Base.{
  ℕ, ◌+◌, ◌≡◌, refl, sym, ap, ◌∙◌, subst, Bool, true, false, not, ◌&&◌, List, [], ◌∷◌, ◌++◌, Result,
  ok, err, leb, any, select, All, arith, Bool-cases, inl, inr,
}
use nestova.Clock.{Time}
use nestova.Text.{same_bytes, same_bytes_refl, same_bytes-sym}
use nestova.Media.Reaper.{
  PhotoClass, same_class, StorageRef, ObjectInfo, MediaState, ReaperService, has_ref,
  referenced_refs, exists_by_storage_ref, is_orphan, orphan_candidates, without_object, plus_one,
  cons_count, then_rest, delete_candidates, sweep, reaped_classes, retains, retained, reap,
}
use nestova.Media.Chores.{delete_uploaded_before}
use nestova.Media.Reaper.Referenced.{has_ref-append}

abbrev pub is_kept : List StorageRef → ObjectInfo → Bool
is_kept gone o = not (has_ref o.key gone)

-- The objects with some references go, and nothing else.
abbrev pub without_objects : List StorageRef → MediaState → MediaState
without_objects gone db = record db { objects = select (is_kept gone) db.objects }

pub select-kept :
    (first later : List StorageRef) (objects : List ObjectInfo)
    → select (is_kept later) (select (is_kept first) objects)
      ≡ select (is_kept (first ++ later)) objects
unfolding select
select-kept first later [] = refl
select-kept first later (o ∷ objects) =
    let ih = select-kept first later objects in
    let split = has_ref-append o.key first later in
    elim (Bool-cases (has_ref o.key first)) [
      | inl t ↦ rw (split, t) ih
      | inr t ↦ elim (Bool-cases (has_ref o.key later)) [
        | inl u ↦ rw (split, t) (rw u ih)
        | inr u ↦ rw (split, t) (rw u (ap (λ rest. o ∷ rest) ih))
      ]
    ]

pub select-kept_none : (objects : List ObjectInfo) → select (is_kept []) objects ≡ objects
unfolding select any
select-kept_none [] = refl
select-kept_none (o ∷ objects) = ap (λ rest. o ∷ rest) (select-kept_none objects)

-- One object, by its key.
pub select-one :
    (ref : StorageRef) (objects : List ObjectInfo)
    → select (λ o. not (same_bytes o.key ref)) objects ≡ select (is_kept (ref ∷ [])) objects
unfolding select any
select-one ref [] = refl
select-one ref (o ∷ objects) =
    ground
      (arith, same_bytes-sym o.key ref, Bool-cases (same_bytes ref o.key), select-one ref objects)

any-subset :
    (p q : ObjectInfo → Bool) (objects : List ObjectInfo)
    → any p (select q objects) ≡ true
    → any p objects ≡ true
unfolding any select
any-subset p q [] h = cc
any-subset p q (o ∷ objects) h =
    ground (arith, h, Bool-cases (p o), Bool-cases (q o), any-subset p q objects)

module _ (s : ReaperService) (now : Time) where
  -- An object that is old enough has the key, and the key is of a reaped class.
  abbrev pub IsOld : List ObjectInfo → StorageRef → Type 0
  IsOld objects ref =
      (same_class (s.class_of ref) PhotoClass.reward_image ≡ false)
      × (any (λ o. same_bytes o.key ref && leb (o.last_modified + s.grace_window) now) objects
          ≡ true)

  -- No row refers to it.
  abbrev pub IsUnreferenced : MediaState → StorageRef → Type 0
  IsUnreferenced db ref = exists_by_storage_ref s ref db ≡ false

  -- What is gone after some deletions.
  pub record Reclaims (P : StorageRef → Type 0) (db after : MediaState) : Type 0 where
    pub gone : List StorageRef
    pub left : after ≡ without_objects gone db
    pub each : All (λ ref. P ref × IsUnreferenced db ref) gone

  nothing_gone : (P : StorageRef → Type 0) (db : MediaState) → Reclaims P db db
  nothing_gone P db = record {
    gone = [];
    left =
        ap (λ (os : List ObjectInfo). record db { objects = os })
          (sym (select-kept_none db.objects));
    each = tt;
  }

  append-All :
      {A : Type 0} (P : A → Type 0) (xs ys : List A) → All P xs → All P ys → All P (xs ++ ys)
  append-All P [] ys h k = k
  append-All P (x ∷ xs) ys (h, hs) k = (h, append-All P xs ys hs k)

  -- First some deletions, then others.
  Reclaims-both :
      (P : StorageRef → Type 0) (db mid after : MediaState)
      → Reclaims P db mid
      → Reclaims P mid after
      → Reclaims P db after
  Reclaims-both P db mid after a b = record {
    gone = a.gone ++ b.gone;
    left =
        b.left
        ∙ ap (λ (m : MediaState). without_objects b.gone m) a.left
        ∙ ap (λ (os : List ObjectInfo). record db { objects = os })
            (select-kept a.gone b.gone db.objects);
    each =
        append-All (λ ref. P ref × IsUnreferenced db ref) a.gone b.gone a.each
          (subst (λ (m : MediaState). All (λ ref. P ref × IsUnreferenced m ref) b.gone) a.left
            b.each);
  }

  Reclaims-one :
      (P : StorageRef → Type 0) (ref : StorageRef) (db : MediaState)
      → P ref
      → IsUnreferenced db ref
      → Reclaims P db (without_object s ref db)
  Reclaims-one P ref db p free = record {
    gone = ref ∷ [];
    left = ap (λ (os : List ObjectInfo). record db { objects = os }) (select-one ref db.objects);
    each = ((p, free), tt);
  }

  plus_one_state : (m : MediaState × Result StorageRef ℕ) → (plus_one s m).0 ≡ m.0
  plus_one_state (db, ok n) = refl
  plus_one_state (db, err e) = refl

  delete_candidates-Reclaims :
      (P : StorageRef → Type 0) (refs : List StorageRef) (db : MediaState)
      → All P refs
      → Reclaims P db (delete_candidates s refs db).0
  unfolding delete_candidates
  delete_candidates-Reclaims P [] db h = nothing_gone P db
  delete_candidates-Reclaims P (ref ∷ refs) db (p, ps) =
      elim (Bool-cases (exists_by_storage_ref s ref db)) [
        | inl used ↦ rw used (delete_candidates-Reclaims P refs db ps)
        | inr free ↦ elim (Bool-cases (s.delete_fails ref)) [
          | inl failed ↦ rw (free, failed) (nothing_gone P db)
          | inr fine ↦
              rw (free, fine, plus_one_state (delete_candidates s refs (without_object s ref db)))
                (Reclaims-both P db (without_object s ref db)
                  (delete_candidates s refs (without_object s ref db)).0
                  (Reclaims-one P ref db p free)
                  (delete_candidates-Reclaims P refs (without_object s ref db) ps))
        ]
      ]

  candidates-IsOld :
      (class : PhotoClass) (referenced : List StorageRef) (objects all : List ObjectInfo)
      → same_class class PhotoClass.reward_image ≡ false
      → ((p : ObjectInfo → Bool) → any p objects ≡ true → any p all ≡ true)
      → All (IsOld all) (orphan_candidates s class now referenced objects)
  unfolding orphan_candidates select any
  candidates-IsOld class referenced [] all r sub = tt
  candidates-IsOld class referenced (o ∷ objects) all r sub =
      let rest =
        candidates-IsOld class referenced objects all r
          (λ p h. sub p (ground (arith, h, Bool-cases (p o)))) in
      elim (Bool-cases (is_orphan s class now referenced o)) [
        | inr other ↦ rw other rest
        | inl own ↦ rw own (
          (
            reaped (s.class_of o.key) class (ground (arith, own)) r,
            sub (λ x. same_bytes x.key o.key && leb (x.last_modified + s.grace_window) now)
                (ground (arith, own, same_bytes_refl o.key)),
          ),
          rest,
        )
      ]
    where
      reaped :
          (c d : PhotoClass)
          → same_class c d ≡ true
          → same_class d PhotoClass.reward_image ≡ false
          → same_class c PhotoClass.reward_image ≡ false
      reaped PhotoClass.album d h k = refl
      reaped PhotoClass.chore_proof d h k = refl
      reaped PhotoClass.reward_image PhotoClass.reward_image h k = cc
      reaped PhotoClass.reward_image PhotoClass.album h k = cc
      reaped PhotoClass.reward_image PhotoClass.chore_proof h k = cc

  cons_state : (n : ℕ) (m : MediaState × Result StorageRef (List ℕ)) → (cons_count s n m).0 ≡ m.0
  cons_state n (db, ok ns) = refl
  cons_state n (db, err e) = refl

  any_left :
      (gone : List StorageRef) (db mid : MediaState) (all : List ObjectInfo)
      → mid ≡ without_objects gone db
      → ((p : ObjectInfo → Bool) → any p db.objects ≡ true → any p all ≡ true)
      → (p : ObjectInfo → Bool) → any p mid.objects ≡ true
      → any p all ≡ true
  any_left gone db mid all e sub p h = sub p (
      any-subset p (is_kept gone) db.objects
        (subst (λ (m : MediaState). any p m.objects ≡ true) e h))

  sweep-Reclaims :
      (classes : List PhotoClass) (referenced : List StorageRef) (db : MediaState)
      (all : List ObjectInfo)
      → All (λ class. same_class class PhotoClass.reward_image ≡ false) classes
      → ((p : ObjectInfo → Bool) → any p db.objects ≡ true → any p all ≡ true)
      → Reclaims (IsOld all) db (sweep s classes now referenced db).0
  unfolding sweep
  sweep-Reclaims [] referenced db all h sub = nothing_gone (IsOld all) db
  sweep-Reclaims (class ∷ classes) referenced db all (h, hs) sub =
      let refs = orphan_candidates s class now referenced db.objects in
      after (delete_candidates s refs db)
        (delete_candidates-Reclaims (IsOld all) refs db
          (candidates-IsOld class referenced db.objects all h sub))
        (λ mid k. sweep-Reclaims classes referenced mid all hs k)
    where
      after :
          (m : MediaState × Result StorageRef ℕ)
          → Reclaims (IsOld all) db m.0
          → ((mid : MediaState)
              → ((p : ObjectInfo → Bool) → any p mid.objects ≡ true → any p all ≡ true)
              → Reclaims (IsOld all) mid (sweep s classes now referenced mid).0)
          → Reclaims (IsOld all) db (then_rest s (λ d. sweep s classes now referenced d) m).0
      after (mid, err e) r ih = r
      after (mid, ok n) r ih = rw (cons_state n (sweep s classes now referenced mid)) (
          Reclaims-both (IsOld all) db mid (sweep s classes now referenced mid).0 r
            (ih mid (any_left r.gone db mid all r.left sub)))

-- A run of the reaper, whether it succeeds or the object store fails in the middle, deletes only
-- objects that no row on the backend refers to after the retention pass, that were last modified at
-- least the grace window ago, and that are of a reaped class. Other objects, and the rows that the
-- retention pass leaves, stay as they are.
pub reap-Reclaims :
    (s : ReaperService) (now : Time) (db : MediaState)
    → Reclaims s now (IsOld s now db.objects) (retained s now db) (reap s now db).0
unfolding reap
reap-Reclaims s now db = elim (Bool-cases (retains s)) [
  | inl on ↦
      let left = record db {
        chores = delete_uploaded_before s.backend s.chore_proof_retention now db.chores;
      } in
      rw on (
        sweep-Reclaims s now (reaped_classes s) (referenced_refs s left) left db.objects
          (refl, (refl, tt)) (λ p h. h))
  | inr off ↦ rw off (
      sweep-Reclaims s now (reaped_classes s) (referenced_refs s db) db db.objects
        (refl, (refl, tt)) (λ p h. h))
]
