-- ===== src/Media/Chores.antt =====
-- Proof photos of chores: internal/media/adapter/chore_photo_postgres.go and
-- internal/media/app/chore_photo_service.go. The EXIF reader, the photo store and the rows that
-- foreign keys refer to are arguments. Create holds a lock for the instance, so the reads and the
-- insert of one call are not interleaved with another; an upload's own check reads earlier.
pub mod Ordering
pub mod Upload
use nestova.Base.{
  ℕ, ◌+◌, Bool, true, false, not, ◌&&◌, ◌||◌, List, [], ◌∷◌, Option, none, some, Result, ok, err,
  ◌>>=◌, ◌>>◌, fail_if, or_fail, ltb, leb, ◌==◌, if◌then◌else◌, length, any, select, update,
}
use nestova.Clock.{Time}
use nestova.Text.{is_empty, trim_space}
use nestova.Media.{
  StorageBackend, same_backend, PhotoKind, same_photo_kind, is_valid_kind, ContentType, MediaError,
  task_instance_not_found, invalid_task_instance_photo, photo_too_large, photo_missing_timestamp,
  photo_stale, after_precedes_before, photo_member_not_found, scrub_error, store_error,
  TaskInstancePhoto,
}

abbrev pub Photos : Type 0
Photos = List TaskInstancePhoto

abbrev pub is_photo_of : ℕ → ℕ → PhotoKind → TaskInstancePhoto → Bool
is_photo_of household instance_id kind p =
    p.household == household && p.instance_id == instance_id && same_photo_kind p.kind kind

abbrev pub later_taken : Time → Option Time → Option Time
later_taken t none = some t
later_taken t (some u) = if ltb u t then some t else some u

abbrev pub earlier_taken : Time → Option Time → Option Time
earlier_taken t none = some t
earlier_taken t (some u) = if ltb t u then some t else some u

unfoldable pub latest_taken_at : ℕ → ℕ → PhotoKind → Photos → Option Time
latest_taken_at household instance_id kind [] = none
latest_taken_at household instance_id kind (p ∷ photos) =
    let rest = latest_taken_at household instance_id kind photos in
    if is_photo_of household instance_id kind p then later_taken p.taken_at rest else rest

unfoldable pub earliest_taken_at : ℕ → ℕ → PhotoKind → Photos → Option Time
earliest_taken_at household instance_id kind [] = none
earliest_taken_at household instance_id kind (p ∷ photos) =
    let rest = earliest_taken_at household instance_id kind photos in
    if is_photo_of household instance_id kind p then earlier_taken p.taken_at rest else rest

-- AfterPrecedesBefore, where there is a photo to compare with.
abbrev pub precedes : Option Time → Time → Bool
precedes none t = false
precedes (some a) t = ltb a t

abbrev pub is_preceded : Time → Option Time → Bool
is_preceded t none = false
is_preceded t (some b) = ltb t b

-- The check of the other kind's photos: the latest `before`, or the earliest `after`.
abbrev pub breaks_order : TaskInstancePhoto → PhotoKind → Photos → Bool
breaks_order p PhotoKind.after_kind photos =
    is_preceded p.taken_at (latest_taken_at p.household p.instance_id PhotoKind.before_kind photos)
breaks_order p PhotoKind.before_kind photos =
    precedes (earliest_taken_at p.household p.instance_id PhotoKind.after_kind photos) p.taken_at
breaks_order p PhotoKind.unspecified_kind photos = false

-- The rows that the foreign keys refer to.
pub record Referents : Type 0 where
  pub instance_exists : ℕ → ℕ → Bool
  pub has_member : ℕ → ℕ → Bool

abbrev pub unknown_uploader : Referents → ℕ → Option ℕ → Bool
unknown_uploader db household none = false
unknown_uploader db household (some m) = not (db.has_member household m)

unfoldable pub create :
    Referents
    → StorageBackend
    → Time
    → TaskInstancePhoto
    → Photos
    → Result MediaError (TaskInstancePhoto × Photos)
create db backend at p photos = do
  fail_if (breaks_order p p.kind photos) after_precedes_before
  fail_if (not (db.instance_exists p.household p.instance_id)) task_instance_not_found
  fail_if (unknown_uploader db p.household p.uploaded_by) photo_member_not_found
  let stored = record p { uploaded_at = at; storage_backend = backend }
  ok (stored, stored ∷ photos)

-- Uploaded more than `age` before `now`.
abbrev pub is_uploaded_before : StorageBackend → Time → Time → TaskInstancePhoto → Bool
is_uploaded_before backend age now p =
    same_backend p.storage_backend backend && ltb (p.uploaded_at + age) now

unfoldable pub delete_uploaded_before : StorageBackend → Time → Time → Photos → Photos
delete_uploaded_before backend age now photos =
    select (λ p. not (is_uploaded_before backend age now p)) photos

unfoldable pub migrate_storage_backend : ℕ → List ℕ → StorageBackend → Photos → Photos
migrate_storage_backend id ref backend photos =
    update (λ p. p.id == id && same_backend p.storage_backend StorageBackend.local)
      (λ p. record p { storage_ref = ref; storage_backend = backend }) photos

abbrev is_hex : ℕ → Bool
is_hex c = leb 48 c && leb c 57 || leb 97 c && leb c 102

abbrev is_accepted_type : ContentType → Bool
is_accepted_type ContentType.other_type = false
is_accepted_type _ = true

unfoldable pub validate_photo : TaskInstancePhoto → Result MediaError (Unit {0})
validate_photo p = do
  fail_if (is_empty (trim_space p.storage_ref)) invalid_task_instance_photo
  fail_if (not (length p.content_hash == 64 && not (any (λ c. not (is_hex c)) p.content_hash)))
      invalid_task_instance_photo
  fail_if (p.size_bytes == 0) invalid_task_instance_photo
  fail_if (not (is_accepted_type p.content_type)) invalid_task_instance_photo
  fail_if (not (is_valid_kind p.kind)) invalid_task_instance_photo
  fail_if (p.taken_at == 0) invalid_task_instance_photo
  ok tt

-- What the store says of bytes that it has put.
pub record PutResult : Type 0 where
  pub ref : List ℕ
  pub content_hash : List ℕ
  pub size_bytes : ℕ
  pub content_type : ContentType

pub record ChoreProofPhotoService : Type 0 where
  pub referents : Referents
  pub write_backend : StorageBackend
  pub taken_at_and_orientation : List ℕ → Option Time × ℕ
  pub scrub : List ℕ → ℕ → Option (List ℕ)
  pub put : ℕ → List ℕ → Option PutResult
  pub max_upload_bytes : ℕ
  pub freshness_window : Time

-- The JPEG start-of-image marker.
unfoldable pub has_soi_prefix : List ℕ → Bool
has_soi_prefix (a ∷ b ∷ rest) = a == 255 && b == 216
has_soi_prefix _ = false

-- An upload; its own check of the order reads the photos that were there some time before.
pub record UploadRequest : Type 0 where
  pub household : ℕ
  pub uploader : ℕ
  pub instance_id : ℕ
  pub kind : PhotoKind
  pub raw : List ℕ
  pub now : Time
  pub photo_id : ℕ
  pub uploaded_at : Time
  pub seen : Photos

module _ (s : ChoreProofPhotoService) where
  abbrev pub capture_metadata : List ℕ → Option Time × ℕ
  capture_metadata raw = if has_soi_prefix raw then s.taken_at_and_orientation raw else (none, 0)

  abbrev pub scrub_if_jpeg : List ℕ → ℕ → Option (List ℕ)
  scrub_if_jpeg raw orientation = if has_soi_prefix raw then s.scrub raw orientation else some raw

  -- now - taken > window or now - taken < -window
  abbrev pub is_stale : Time → Time → Bool
  is_stale now taken = ltb (taken + s.freshness_window) now || ltb (now + s.freshness_window) taken

  abbrev pub fails_preflight : UploadRequest → Time → Bool
  fails_preflight r taken =
      same_photo_kind r.kind PhotoKind.after_kind
      && is_preceded taken (latest_taken_at r.household r.instance_id PhotoKind.before_kind r.seen)

  abbrev pub photo_of : UploadRequest → Time → PutResult → TaskInstancePhoto
  photo_of r taken stored = record {
    id = r.photo_id;
    household = r.household;
    instance_id = r.instance_id;
    kind = r.kind;
    storage_ref = stored.ref;
    content_hash = stored.content_hash;
    size_bytes = stored.size_bytes;
    content_type = stored.content_type;
    taken_at = taken;
    uploaded_by = some r.uploader;
    uploaded_at = 0;
    storage_backend = StorageBackend.local;
  }

  unfoldable pub upload : UploadRequest → Photos → Result MediaError (TaskInstancePhoto × Photos)
  upload r photos = do
    fail_if (not (s.referents.instance_exists r.household r.instance_id)) task_instance_not_found
    fail_if (not (is_valid_kind r.kind)) invalid_task_instance_photo
    fail_if (ltb s.max_upload_bytes (length r.raw)) photo_too_large
    taken ← or_fail (capture_metadata r.raw).0 photo_missing_timestamp
    fail_if (is_stale r.now taken) photo_stale
    fail_if (fails_preflight r taken) after_precedes_before
    final_bytes ← or_fail (scrub_if_jpeg r.raw (capture_metadata r.raw).1) scrub_error
    stored ← or_fail (s.put r.household final_bytes) store_error
    validate_photo (photo_of r taken stored)
    create s.referents s.write_backend r.uploaded_at (photo_of r taken stored) photos
