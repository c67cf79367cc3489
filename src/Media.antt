-- ===== src/Media.antt =====
-- Stored photos: the rows of internal/media/domain/chore_photo.go and photo.go, with the backends
-- and classes of objects (storage_backend.go, photo_class.go).
pub mod Chores
pub mod Reaper
mod Examples
use nestova.Base.{ℕ, Bool, true, false, List, Option}
use nestova.Clock.{Time}

pub data StorageBackend : Type 0 where
  local s3 : StorageBackend

abbrev pub same_backend : StorageBackend → StorageBackend → Bool
same_backend StorageBackend.local StorageBackend.local = true
same_backend StorageBackend.s3 StorageBackend.s3 = true
same_backend _ _ = false

pub data PhotoKind : Type 0 where
  unspecified_kind before_kind after_kind : PhotoKind

abbrev pub same_photo_kind : PhotoKind → PhotoKind → Bool
same_photo_kind PhotoKind.unspecified_kind PhotoKind.unspecified_kind = true
same_photo_kind PhotoKind.before_kind PhotoKind.before_kind = true
same_photo_kind PhotoKind.after_kind PhotoKind.after_kind = true
same_photo_kind _ _ = false

abbrev pub is_valid_kind : PhotoKind → Bool
is_valid_kind PhotoKind.before_kind = true
is_valid_kind PhotoKind.after_kind = true
is_valid_kind PhotoKind.unspecified_kind = false

pub data ContentType : Type 0 where
  jpeg png webp other_type : ContentType

pub data MediaError : Type 0 where
  task_instance_not_found invalid_task_instance_photo photo_too_large photo_missing_timestamp
        photo_stale after_precedes_before photo_member_not_found scrub_error store_error :
      MediaError

-- A proof photo of a chore; a storage reference is a text.
pub record TaskInstancePhoto : Type 0 where
  pub id : ℕ
  pub household : ℕ
  pub instance_id : ℕ
  pub kind : PhotoKind
  pub storage_ref : List ℕ
  pub content_hash : List ℕ
  pub size_bytes : ℕ
  pub content_type : ContentType
  pub taken_at : Time
  pub uploaded_by : Option ℕ
  pub uploaded_at : Time
  pub storage_backend : StorageBackend

-- What the reaper reads of an album photo.
pub record AlbumPhoto : Type 0 where
  pub storage_ref : List ℕ
  pub storage_backend : StorageBackend
