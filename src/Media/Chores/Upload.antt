-- ===== src/Media/Chores/Upload.antt =====
-- What an upload that succeeds has stored: internal/media/app/chore_photo_service.go (Upload).
use nestova.Base.{
  ℕ, ◌+◌, ◌≤◌, ◌≡◌, refl, sym, ap, ◌∙◌, subst, true, not, not-false, List, ◌∷◌, none, some, ok,
  or_fail, guard-ok, then-ok, bind-ok, or_fail-ok, ok_inj, ltb, if◌then◌else◌, length, arith,
  Bool-cases, inl, inr,
}
use nestova.Clock.{Time}
use nestova.Media.{
  is_valid_kind, TaskInstancePhoto, task_instance_not_found, invalid_task_instance_photo,
  photo_too_large, photo_missing_timestamp, photo_stale, after_precedes_before,
  photo_member_not_found, scrub_error, store_error,
}
use nestova.Media.Chores.{
  Photos, breaks_order, create, unknown_uploader, ChoreProofPhotoService, PutResult, has_soi_prefix,
  UploadRequest, capture_metadata, scrub_if_jpeg, is_stale, fails_preflight, photo_of, upload,
  validate_photo,
}

module _ (s : ChoreProofPhotoService) where
  pub record IsUploaded (r : UploadRequest) (photos : Photos) (photo : TaskInstancePhoto)
      (photos' : Photos) : Type 0 where
    bytes : List ℕ
    stored : PutResult
    inserted : photos' ≡ photo ∷ photos
    is_jpeg : has_soi_prefix r.raw ≡ true
    fits : length r.raw ≤ s.max_upload_bytes
    taken : (s.taken_at_and_orientation r.raw).0 ≡ some photo.taken_at
    not_old : r.now ≤ photo.taken_at + s.freshness_window
    not_ahead : photo.taken_at ≤ r.now + s.freshness_window
    scrubbed : s.scrub r.raw (s.taken_at_and_orientation r.raw).1 ≡ some bytes
    was_put : s.put r.household bytes ≡ some stored
    refers : photo.storage_ref ≡ stored.ref
    on_backend : photo.storage_backend ≡ s.write_backend
    of_instance :
        (photo.household ≡ r.household)
        × (photo.instance_id ≡ r.instance_id)
        × (s.referents.instance_exists r.household r.instance_id ≡ true)

  create-ok :
      (r : UploadRequest) (taken : Time) (stored : PutResult) (photos : Photos)
      (made : TaskInstancePhoto × Photos)
      → create s.referents s.write_backend r.uploaded_at (photo_of s r taken stored) photos
        ≡ ok made
      → let photo = record (photo_of s r taken stored) {
        uploaded_at = r.uploaded_at;
        storage_backend = s.write_backend;
      } in
        made ≡ (photo, photo ∷ photos)
  unfolding create
  create-ok r taken stored photos made h =
      let p = photo_of s r taken stored in
      let (kept, h1) = guard-ok (breaks_order p p.kind photos) after_precedes_before _ h in
      let (known, h2) =
        guard-ok (not (s.referents.instance_exists r.household r.instance_id))
          task_instance_not_found _ h1 in
      let (member, h3) =
        guard-ok (unknown_uploader s.referents r.household (some r.uploader)) photo_member_not_found
          _ h2 in
      sym (ok_inj h3)

  captured-jpeg :
      (raw : List ℕ) (t : Time) → (capture_metadata s raw).0 ≡ some t → has_soi_prefix raw ≡ true
  captured-jpeg raw t h = elim (Bool-cases (has_soi_prefix raw)) [
    | inl e ↦ e
    | inr e ↦ absurd (ground (arith, h, e))
  ]

  -- A proof photo that is accepted is a JPEG within the size limit, of an instance that exists, whose
  -- camera time is within the freshness window of the upload on either side. What the store got are
  -- the scrubbed bytes, and the row refers to them on the service's backend.
  pub upload-IsUploaded :
      (r : UploadRequest) (photos : Photos) (photo : TaskInstancePhoto) (photos' : Photos)
      → upload s r photos ≡ ok (photo, photos')
      → IsUploaded r photos photo photos'
  unfolding upload
  upload-IsUploaded r photos photo photos' h =
      let (exists, h1) =
        guard-ok (not (s.referents.instance_exists r.household r.instance_id))
          task_instance_not_found _ h in
      let (valid, h2) = guard-ok (not (is_valid_kind r.kind)) invalid_task_instance_photo _ h1 in
      let (small, h3) = guard-ok (ltb s.max_upload_bytes (length r.raw)) photo_too_large _ h2 in
      let (taken, captured, h4) =
        bind-ok (or_fail (capture_metadata s r.raw).0 photo_missing_timestamp) _ h3 in
      let (fresh, h5) = guard-ok (is_stale s r.now taken) photo_stale _ h4 in
      let (checked, h6) = guard-ok (fails_preflight s r taken) after_precedes_before _ h5 in
      let (bytes, cleaned, h7) =
        bind-ok (or_fail (scrub_if_jpeg s r.raw (capture_metadata s r.raw).1) scrub_error) _ h6 in
      let (stored, put, h8) = bind-ok (or_fail (s.put r.household bytes) store_error) _ h7 in
      let (formed, h9) = then-ok (validate_photo (photo_of s r taken stored)) _ h8 in
      let made = create-ok r taken stored photos (photo, photos') h9 in
      let read = or_fail-ok (capture_metadata s r.raw).0 photo_missing_timestamp captured in
      let soi = captured-jpeg r.raw taken read in
      let same = sym (ap (λ m. m.0) made) in
      let shot = s.taken_at_and_orientation r.raw in
      let cleaned_bytes =
        or_fail-ok (scrub_if_jpeg s r.raw (capture_metadata s r.raw).1) scrub_error cleaned in
      record {
        bytes = bytes;
        stored = stored;
        inserted = ap (λ m. m.1) made ∙ ap (λ (p : TaskInstancePhoto). p ∷ photos) same;
        is_jpeg = soi;
        fits = ground (arith, small);
        taken =
            subst (λ (p : TaskInstancePhoto). shot.0 ≡ some p.taken_at) same
              (subst (λ b. (if b then shot else (none, 0)).0 ≡ some taken) soi read);
        not_old =
            subst (λ (p : TaskInstancePhoto). r.now ≤ p.taken_at + s.freshness_window) same
              (ground (arith, fresh));
        not_ahead =
            subst (λ (p : TaskInstancePhoto). p.taken_at ≤ r.now + s.freshness_window) same
              (ground (arith, fresh));
        scrubbed =
            subst
              (λ b.
                (if b then s.scrub r.raw (if b then shot else (none, 0)).1 else some r.raw)
                ≡ some bytes)
              soi cleaned_bytes;
        was_put = or_fail-ok (s.put r.household bytes) store_error put;
        refers = subst (λ (p : TaskInstancePhoto). p.storage_ref ≡ stored.ref) same refl;
        on_backend =
            subst (λ (p : TaskInstancePhoto). p.storage_backend ≡ s.write_backend) same refl;
        of_instance = (
          subst (λ (p : TaskInstancePhoto). p.household ≡ r.household) same refl,
          subst (λ (p : TaskInstancePhoto). p.instance_id ≡ r.instance_id) same refl,
          not-false _ exists,
        );
      }
