-- ===== src/Media/Examples.antt =====
-- A chore with a photo taken before it, an upload of one taken after it, and a bucket with an object
-- that nothing refers to.
use nestova.Base.{
  ℕ, ◌≡◌, refl, true, false, List, [], ◌∷◌, Option, none, some, ok, map, length, any,
}
use nestova.Text.{is_space, trim_left, trim_right}
use nestova.Media.{StorageBackend, PhotoKind, ContentType, TaskInstancePhoto}
use nestova.Media.Chores.{
  Photos, ChoreProofPhotoService, UploadRequest, upload, create, validate_photo, latest_taken_at,
  has_soi_prefix,
}
use nestova.Media.Chores.Ordering.{IsOrdered, PhotoEvent, after_events, after_events-IsOrdered}
use nestova.Media.Chores.Upload.{IsUploaded, upload-IsUploaded}
use nestova.Media.Reaper.{PhotoClass, ReaperService, MediaState, reap, retained, dry_run}
use nestova.Media.Reaper.Sweep.{Reclaims, IsOld, reap-Reclaims, without_objects}
use nestova.Media.Reaper.DryRun.{reap-dry_run, concat}

abbrev hash : List ℕ
hash =
    48 ∷ 48 ∷ 48 ∷ 48 ∷ 48 ∷ 48 ∷ 48 ∷ 48 ∷ 48 ∷ 48 ∷ 48 ∷ 48 ∷ 48 ∷ 48 ∷ 48 ∷ 48 ∷ 48 ∷ 48 ∷ 48
    ∷ 48 ∷ 48 ∷ 48 ∷ 48 ∷ 48 ∷ 48 ∷ 48 ∷ 48 ∷ 48 ∷ 48 ∷ 48 ∷ 48 ∷ 48 ∷ 48 ∷ 48 ∷ 48 ∷ 48 ∷ 48 ∷ 48
    ∷ 48 ∷ 48 ∷ 48 ∷ 48 ∷ 48 ∷ 48 ∷ 48 ∷ 48 ∷ 48 ∷ 48 ∷ 48 ∷ 48 ∷ 48 ∷ 48 ∷ 48 ∷ 48 ∷ 48 ∷ 48 ∷ 97
    ∷ 97 ∷ 97 ∷ 97 ∷ 97 ∷ 97 ∷ 97 ∷ 97 ∷ []

-- The third byte of an image is the time it was taken, and scrubbing drops it.
abbrev taken_in : List ℕ → Option ℕ
taken_in (a ∷ b ∷ t ∷ rest) = some t
taken_in _ = none

abbrev scrubbed : List ℕ → Option (List ℕ)
scrubbed (a ∷ b ∷ t ∷ rest) = some (a ∷ b ∷ rest)
scrubbed _ = none

abbrev service : ChoreProofPhotoService
service = record {
  referents = record { instance_exists = λ h i. true; has_member = λ h m. true };
  write_backend = StorageBackend.s3;
  taken_at_and_orientation = λ raw. (taken_in raw, 1);
  scrub = λ raw orientation. scrubbed raw;
  put = λ h bytes. some (record {
    ref = bytes;
    content_hash = hash;
    size_bytes = length bytes;
    content_type = ContentType.jpeg;
  });
  max_upload_bytes = 10;
  freshness_window = 5;
}

abbrev photo_before : TaskInstancePhoto
photo_before = record {
  id = 1;
  household = 1;
  instance_id = 7;
  kind = PhotoKind.before_kind;
  storage_ref = 9 ∷ [];
  content_hash = hash;
  size_bytes = 1;
  content_type = ContentType.jpeg;
  taken_at = 100;
  uploaded_by = none;
  uploaded_at = 101;
  storage_backend = StorageBackend.s3;
}

abbrev request : UploadRequest
request = record {
  household = 1;
  uploader = 2;
  instance_id = 7;
  kind = PhotoKind.after_kind;
  raw = 255 ∷ 216 ∷ 120 ∷ 77 ∷ [];
  now = 122;
  photo_id = 3;
  uploaded_at = 123;
  seen = [];
}

abbrev photo_after : TaskInstancePhoto
photo_after = record {
  id = 3;
  household = 1;
  instance_id = 7;
  kind = PhotoKind.after_kind;
  storage_ref = 255 ∷ 216 ∷ 77 ∷ [];
  content_hash = hash;
  size_bytes = 3;
  content_type = ContentType.jpeg;
  taken_at = 120;
  uploaded_by = some 2;
  uploaded_at = 123;
  storage_backend = StorageBackend.s3;
}

abbrev photos : Photos
photos = photo_before ∷ []

uploaded : upload service request photos ≡ ok (photo_after, photo_after ∷ photos)
unfolding upload create validate_photo latest_taken_at has_soi_prefix trim_left trim_right is_space
    any
uploaded = refl

upload-IsUploaded_example : IsUploaded service request photos photo_after (photo_after ∷ photos)
upload-IsUploaded_example =
    upload-IsUploaded service request photos photo_after (photo_after ∷ photos) uploaded

abbrev events : List PhotoEvent
events =
    PhotoEvent.uploading request
    ∷ PhotoEvent.migrating 1 (8 ∷ []) StorageBackend.s3
    ∷ PhotoEvent.expiring StorageBackend.s3 10 112
    ∷ []

after_events-IsOrdered_example : IsOrdered (after_events service events photos)
after_events-IsOrdered_example =
    after_events-IsOrdered service events photos ((λ after of. absurd (cc), tt), tt)

-- The kept photo's object, and one more of the same age.
abbrev reaper : ReaperService
reaper = record {
  backend = StorageBackend.s3;
  grace_window = 10;
  chore_proof_retention = 0;
  class_of = λ ref. PhotoClass.chore_proof;
  delete_fails = λ ref. false;
}

abbrev bucket : MediaState
bucket = record {
  albums = [];
  chores = photos;
  objects =
      record { key = 9 ∷ []; last_modified = 100 }
      ∷ record { key = 6 ∷ []; last_modified = 100 }
      ∷ [];
}

reap-Reclaims_example :
    Reclaims reaper 200
      (IsOld reaper 200 bucket.objects)
      (retained reaper 200 bucket)
      (reap reaper 200 bucket).0
reap-Reclaims_example = reap-Reclaims reaper 200 bucket

reap-dry_run_example :
    let (rows, would) = dry_run reaper 200 bucket in
    reap reaper 200 bucket ≡ (
      without_objects (concat would) (retained reaper 200 bucket),
      ok (rows, map (λ refs. length refs) would),
    )
reap-dry_run_example = reap-dry_run reaper 200 (λ ref. refl) bucket
