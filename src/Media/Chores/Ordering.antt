-- ===== src/Media/Chores/Ordering.antt =====
-- The order of a chore's proof photos: internal/media/adapter/chore_photo_postgres.go (Create).
use nestova.Base.{
  ℕ, ◌≤◌, ◌≡◌, refl, Bool, true, false, not, length, ◌&&◌, List, [], ◌∷◌, Option, none, some,
  Result, ok, err, OnSuccess, OnSuccess-guard, OnSuccess-then, OnSuccess-or_fail, ltb, ◌==◌,
  if◌then◌else◌, All, arith, select, update, All-update, All-map, All-always, All-both, All-select,
}
use nestova.Clock.{Time}
use nestova.Media.{
  StorageBackend, same_backend, PhotoKind, same_photo_kind, is_valid_kind, MediaError,
  TaskInstancePhoto,
}
use nestova.Media.Chores.{
  Photos, is_photo_of, later_taken, earlier_taken, latest_taken_at, earliest_taken_at, precedes,
  is_preceded, breaks_order, Referents, create, delete_uploaded_before, is_uploaded_before,
  migrate_storage_backend, ChoreProofPhotoService, UploadRequest, upload, validate_photo,
  unknown_uploader, is_stale, fails_preflight, capture_metadata, scrub_if_jpeg, photo_of,
}

-- A photo taken after a chore is not older than one taken before it.
abbrev pub InOrder : TaskInstancePhoto → TaskInstancePhoto → Type 0
InOrder a b =
    same_photo_kind a.kind PhotoKind.after_kind ≡ true
    → is_photo_of a.household a.instance_id PhotoKind.before_kind b ≡ true
    → b.taken_at ≤ a.taken_at

abbrev pub IsOrdered : Photos → Type 0
IsOrdered photos = All (λ a. All (λ b. InOrder a b) photos) photos

latest_lem :
    (household instance_id : ℕ) (kind : PhotoKind) (t : Time) (photos : Photos)
    → is_preceded t (latest_taken_at household instance_id kind photos) ≡ false
    → All (λ p. is_photo_of household instance_id kind p ≡ true → p.taken_at ≤ t) photos
unfolding latest_taken_at
latest_lem household instance_id kind t [] h = tt
latest_lem household instance_id kind t (p ∷ photos) h =
    result (is_photo_of household instance_id kind p)
      (latest_taken_at household instance_id kind photos) refl refl h
      (λ k. latest_lem household instance_id kind t photos k)
  where
    result :
        (b : Bool) (o : Option Time)
        → is_photo_of household instance_id kind p ≡ b
        → latest_taken_at household instance_id kind photos ≡ o
        → is_preceded t (if b then later_taken p.taken_at o else o) ≡ false
        → (is_preceded t (latest_taken_at household instance_id kind photos) ≡ false
            → All (λ q. is_photo_of household instance_id kind q ≡ true → q.taken_at ≤ t) photos)
        → All (λ q. is_photo_of household instance_id kind q ≡ true → q.taken_at ≤ t) (p ∷ photos)
    result false o e f g ih = (λ own. absurd (ground (arith, own, e)), ih (rw f g))
    result true none e f g ih = (λ own. ground (arith, g), ih (rw f refl))
    result true (some u) e f g ih = (λ own. ground (arith, g), ih (rw f (ground (arith, g))))

earliest_lem :
    (household instance_id : ℕ) (kind : PhotoKind) (t : Time) (photos : Photos)
    → precedes (earliest_taken_at household instance_id kind photos) t ≡ false
    → All (λ p. is_photo_of household instance_id kind p ≡ true → t ≤ p.taken_at) photos
unfolding earliest_taken_at
earliest_lem household instance_id kind t [] h = tt
earliest_lem household instance_id kind t (p ∷ photos) h =
    result (is_photo_of household instance_id kind p)
      (earliest_taken_at household instance_id kind photos) refl refl h
      (λ k. earliest_lem household instance_id kind t photos k)
  where
    result :
        (b : Bool) (o : Option Time)
        → is_photo_of household instance_id kind p ≡ b
        → earliest_taken_at household instance_id kind photos ≡ o
        → precedes (if b then earlier_taken p.taken_at o else o) t ≡ false
        → (precedes (earliest_taken_at household instance_id kind photos) t ≡ false
            → All (λ q. is_photo_of household instance_id kind q ≡ true → t ≤ q.taken_at) photos)
        → All (λ q. is_photo_of household instance_id kind q ≡ true → t ≤ q.taken_at) (p ∷ photos)
    result false o e f g ih = (λ own. absurd (ground (arith, own, e)), ih (rw f g))
    result true none e f g ih = (λ own. ground (arith, g), ih (rw f refl))
    result true (some u) e f g ih = (λ own. ground (arith, g), ih (rw f (ground (arith, g))))

-- A photo that passes the check is in order with all others, on both sides.
new_after :
    (p : TaskInstancePhoto) (photos : Photos)
    → breaks_order p p.kind photos ≡ false
    → All (λ b. InOrder p b) photos
new_after p photos h = kinds p.kind refl h
  where
    kinds :
        (k : PhotoKind)
        → p.kind ≡ k
        → breaks_order p k photos ≡ false
        → All (λ b. InOrder p b) photos
    kinds PhotoKind.after_kind e h =
        All-map
          (λ b.
            is_photo_of p.household p.instance_id PhotoKind.before_kind b ≡ true
            → b.taken_at ≤ p.taken_at)
          (λ b. InOrder p b) photos (λ b f own of. f of)
          (latest_lem p.household p.instance_id PhotoKind.before_kind p.taken_at photos h)
    kinds PhotoKind.before_kind e h =
        All-always (λ b. InOrder p b) photos (λ b own of. absurd (ground (arith, own, e)))
    kinds PhotoKind.unspecified_kind e h =
        All-always (λ b. InOrder p b) photos (λ b own of. absurd (ground (arith, own, e)))

new_before :
    (p : TaskInstancePhoto) (photos : Photos)
    → breaks_order p p.kind photos ≡ false
    → All (λ a. InOrder a p) photos
new_before p photos h = kinds p.kind refl h
  where
    kinds :
        (k : PhotoKind)
        → p.kind ≡ k
        → breaks_order p k photos ≡ false
        → All (λ a. InOrder a p) photos
    kinds PhotoKind.before_kind e h =
        All-map
          (λ a.
            is_photo_of p.household p.instance_id PhotoKind.after_kind a ≡ true
            → p.taken_at ≤ a.taken_at)
          (λ a. InOrder a p) photos (λ a f own of. f (ground (arith, own, of)))
          (earliest_lem p.household p.instance_id PhotoKind.after_kind p.taken_at photos h)
    kinds PhotoKind.after_kind e h =
        All-always (λ a. InOrder a p) photos (λ a own of. absurd (ground (arith, of, e)))
    kinds PhotoKind.unspecified_kind e h =
        All-always (λ a. InOrder a p) photos (λ a own of. absurd (ground (arith, of, e)))

-- A kind is not both.
own_order : (p : TaskInstancePhoto) → InOrder p p
own_order p = kinds p.kind refl
  where
    kinds : (k : PhotoKind) → p.kind ≡ k → InOrder p p
    kinds PhotoKind.before_kind e own of = absurd (ground (arith, own, e))
    kinds PhotoKind.after_kind e own of = absurd (ground (arith, of, e))
    kinds PhotoKind.unspecified_kind e own of = absurd (ground (arith, of, e))

insert-IsOrdered :
    (p : TaskInstancePhoto) (photos : Photos)
    → breaks_order p p.kind photos ≡ false
    → IsOrdered photos
    → IsOrdered (p ∷ photos)
insert-IsOrdered p photos h ordered = (
  (own_order p, new_after p photos h),
  All-both (λ a. InOrder a p) (λ a. All (λ b. InOrder a b) photos) photos (new_before p photos h)
      ordered,
)

abbrev MadeOrdered : TaskInstancePhoto × Photos → Type 0
MadeOrdered made = IsOrdered made.1

create-IsOrdered :
    (db : Referents) (backend : StorageBackend) (at : Time) (p : TaskInstancePhoto)
    (photos : Photos)
    → IsOrdered photos
    → OnSuccess MadeOrdered (create db backend at p photos)
unfolding create
create-IsOrdered db backend at p photos ordered =
    OnSuccess-guard MadeOrdered (breaks_order p p.kind photos) _ _ λ kept.
      OnSuccess-guard MadeOrdered (not (db.instance_exists p.household p.instance_id)) _ _ λ known.
        OnSuccess-guard MadeOrdered (unknown_uploader db p.household p.uploaded_by) _ _ λ member.
          insert-IsOrdered (record p { uploaded_at = at; storage_backend = backend }) photos kept
            ordered

upload-IsOrdered :
    (s : ChoreProofPhotoService) (r : UploadRequest) (photos : Photos)
    → IsOrdered photos
    → OnSuccess MadeOrdered (upload s r photos)
unfolding upload
upload-IsOrdered s r photos ordered =
    OnSuccess-guard MadeOrdered (not (s.referents.instance_exists r.household r.instance_id)) _ _
      λ exists. OnSuccess-guard MadeOrdered (not (is_valid_kind r.kind)) _ _ λ valid.
        OnSuccess-guard MadeOrdered (ltb s.max_upload_bytes (length r.raw)) _ _ λ small.
          OnSuccess-or_fail MadeOrdered (capture_metadata s r.raw).0 _ _ λ taken e.
            OnSuccess-guard MadeOrdered (is_stale s r.now taken) _ _ λ fresh.
              OnSuccess-guard MadeOrdered (fails_preflight s r taken) _ _ λ checked.
                OnSuccess-or_fail MadeOrdered (scrub_if_jpeg s r.raw (capture_metadata s r.raw).1) _
                  _
                  λ final_bytes e2.
                    OnSuccess-or_fail MadeOrdered (s.put r.household final_bytes) _ _ λ stored e3.
                      OnSuccess-then MadeOrdered (validate_photo (photo_of s r taken stored)) _
                        λ formed.
                          create-IsOrdered s.referents s.write_backend r.uploaded_at
                            (photo_of s r taken stored) photos ordered

-- What happens to the table of photos.
pub data PhotoEvent : Type 0 where
  uploading : UploadRequest → PhotoEvent
  expiring : StorageBackend → Time → Time → PhotoEvent
  migrating : ℕ → List ℕ → StorageBackend → PhotoEvent

abbrev pub photos_or : Photos → Result MediaError (TaskInstancePhoto × Photos) → Photos
photos_or photos (ok made) = made.1
photos_or photos (err e) = photos

module _ (s : ChoreProofPhotoService) where
  unfoldable pub after_event : PhotoEvent → Photos → Photos
  after_event (PhotoEvent.uploading r) photos = photos_or photos (upload s r photos)
  after_event (PhotoEvent.expiring backend age now) photos =
      delete_uploaded_before backend age now photos
  after_event (PhotoEvent.migrating id ref backend) photos =
      migrate_storage_backend id ref backend photos

  unfoldable pub after_events : List PhotoEvent → Photos → Photos
  after_events [] photos = photos
  after_events (e ∷ events) photos = after_events events (after_event e photos)

  event-IsOrdered :
      (e : PhotoEvent) (photos : Photos) → IsOrdered photos → IsOrdered (after_event e photos)
  unfolding after_event delete_uploaded_before migrate_storage_backend
  event-IsOrdered (PhotoEvent.uploading r) photos ordered =
      either (upload s r photos) (upload-IsOrdered s r photos ordered)
    where
      either :
          (m : Result MediaError (TaskInstancePhoto × Photos))
          → OnSuccess MadeOrdered m
          → IsOrdered (photos_or photos m)
      either (ok made) h = h
      either (err e) h = ordered
  event-IsOrdered (PhotoEvent.expiring backend age now) photos ordered =
      let kept = λ (p : TaskInstancePhoto). not (is_uploaded_before backend age now p) in
      All-select (λ a. All (λ b. InOrder a b) (select kept photos)) kept photos
        (All-map (λ a. All (λ b. InOrder a b) photos)
          (λ a. All (λ b. InOrder a b) (select kept photos)) photos
          (λ a h. All-select (λ b. InOrder a b) kept photos h) ordered)
  event-IsOrdered (PhotoEvent.migrating id ref backend) photos ordered =
      let moves = λ (p : TaskInstancePhoto).
        p.id == id && same_backend p.storage_backend StorageBackend.local in
      let moved =
        λ (p : TaskInstancePhoto). record p { storage_ref = ref; storage_backend = backend } in
      All-update (λ a. All (λ b. InOrder a b) (update moves moved photos)) moves moved photos
        (λ a t h. h)
        (All-map (λ a. All (λ b. InOrder a b) photos)
          (λ a. All (λ b. InOrder a b) (update moves moved photos)) photos
          (λ a h. All-update (λ b. InOrder a b) moves moved photos (λ b t k. k) h) ordered)

  -- Whatever is uploaded, expires or is moved to another store, and however old the photos are that
  -- an upload checks itself against, no photo taken after a chore is older than a photo taken before
  -- it, if that held of the photos at the start.
  pub after_events-IsOrdered :
      (events : List PhotoEvent) (photos : Photos)
      → IsOrdered photos
      → IsOrdered (after_events events photos)
  unfolding after_events
  after_events-IsOrdered [] photos ordered = ordered
  after_events-IsOrdered (e ∷ events) photos ordered =
      after_events-IsOrdered events (after_event e photos) (event-IsOrdered e photos ordered)
