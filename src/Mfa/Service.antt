-- ===== src/Mfa/Service.antt =====
-- The two-factor service: internal/auth/app/mfa.go. The cipher, the TOTP provider, the password
-- hasher and the directory of members are arguments; codes come trimmed, and an empty one is
-- absent. The identifiers and texts of new recovery codes are arguments too.
pub mod Replay
pub mod RecoveryCodes
pub mod Reset
use nestova.Base.{
  ℕ, zero, suc, Bool, true, false, not, ◌&&◌, ◌||◌, List, [], ◌∷◌, Option, none, some, ◌==◌,
  if◌then◌else◌, is_none, Result, ok, err, ◌>>=◌, ◌>>◌, fail_if, or_fail,
}
use nestova.Clock.{Time}
use nestova.Mfa.{
  MfaError, already_enrolled, not_enrolled, invalid_totp_code, recovery_code_invalid,
  verification_required, owner_reauth_required, not_household_owner, member_not_found,
  internal_error, MfaEnrollment, RecoveryCode, MfaDb, confirmed, is_empty, normalize_recovery_code,
}
use nestova.Mfa.Store.{
  get_enrollment, begin_enrollment, confirm_enrollment_with_codes, delete_enrollment,
  replace_recovery_codes, list_unused_recovery_codes, mark_recovery_code_used, is_fresh_step,
  record_login_step, revoke_all, or_stay,
}

-- A member's household, role and stored password.
pub record MemberView : Type 0 where
  pub household : ℕ
  pub is_owner : Bool
  pub password_hash : Option (List ℕ)

-- `verify` has no value for a malformed hash.
pub record MfaService : Type 0 where
  pub encrypt : List ℕ → Option (List ℕ)
  pub decrypt : List ℕ → Option (List ℕ)
  pub validate : Time → List ℕ → List ℕ → Bool
  pub match_step : Time → List ℕ → List ℕ → Option ℕ
  pub hash : List ℕ → Option (List ℕ)
  pub verify : List ℕ → List ℕ → Option Bool
  pub members : ℕ → Option MemberView
  pub new_code : ℕ → ℕ × List ℕ

abbrev recovery_code_count : ℕ
recovery_code_count = 10

module _ (s : MfaService) where
  unfoldable pub start_enrollment : ℕ → ℕ → List ℕ → MfaDb → Result MfaError MfaDb
  start_enrollment member household secret db = do
    secret_enc ← or_fail (s.encrypt secret) internal_error
    begin_enrollment (λ h m. is_in h (s.members m)) member household secret_enc db
    where
      is_in : ℕ → Option MemberView → Bool
      is_in h none = false
      is_in h (some v) = v.household == h

  -- The hashes of `k` new codes.
  unfoldable pub generate_recovery_codes : ℕ → Result MfaError (List (ℕ × List ℕ))
  generate_recovery_codes zero = ok []
  generate_recovery_codes (suc k) = do
    hashed ← or_fail (s.hash (normalize_recovery_code (s.new_code k).1)) internal_error
    rest ← generate_recovery_codes k
    ok (((s.new_code k).0, hashed) ∷ rest)

  unfoldable pub confirm_enrollment : Time → ℕ → List ℕ → MfaDb → Result MfaError MfaDb
  confirm_enrollment now member code db = do
    enrollment ← get_enrollment member db
    fail_if (confirmed enrollment) already_enrolled
    secret ← or_fail (s.decrypt enrollment.totp_secret_enc) internal_error
    fail_if (not (s.validate now code secret)) invalid_totp_code
    hashes ← generate_recovery_codes recovery_code_count
    confirm_enrollment_with_codes now member hashes db

  unfoldable pub require_confirmed_enrollment : ℕ → MfaDb → Result MfaError MfaEnrollment
  require_confirmed_enrollment member db = do
    enrollment ← get_enrollment member db
    fail_if (not (confirmed enrollment)) not_enrolled
    ok enrollment

  unfoldable pub regenerate_recovery_codes : Time → ℕ → List ℕ → MfaDb → Result MfaError MfaDb
  regenerate_recovery_codes now member code db = do
    enrollment ← require_confirmed_enrollment member db
    secret ← or_fail (s.decrypt enrollment.totp_secret_enc) internal_error
    fail_if (not (s.validate now code secret)) invalid_totp_code
    hashes ← generate_recovery_codes recovery_code_count
    replace_recovery_codes member hashes db

  abbrev pub is_match : Option Bool → Bool
  is_match none = false
  is_match (some verdict) = verdict

  unfoldable pub first_match : List ℕ → List RecoveryCode → Option ℕ
  first_match text [] = none
  first_match text (c ∷ codes) =
      if is_match (s.verify text c.code_hash) then some c.id else first_match text codes

  unfoldable pub match_recovery_code : List ℕ → List RecoveryCode → Option ℕ
  match_recovery_code raw codes =
      if is_empty (normalize_recovery_code raw)
      then none
      else first_match (normalize_recovery_code raw) codes

  -- A code is matched against the list that was read, and then marked.
  unfoldable pub spend_recovery_code :
      Time → List ℕ → List RecoveryCode → MfaDb → Result MfaError MfaDb
  spend_recovery_code now raw codes db = do
    id ← or_fail (match_recovery_code raw codes) recovery_code_invalid
    mark_recovery_code_used now id db

  -- The step of a code is compared with the enrollment that was read, and then recorded.
  unfoldable pub verify_login_totp :
      Time → ℕ → MfaEnrollment → List ℕ → MfaDb → Result MfaError MfaDb
  verify_login_totp now member enrollment code db = do
    secret ← or_fail (s.decrypt enrollment.totp_secret_enc) internal_error
    step ← or_fail (s.match_step now code secret) invalid_totp_code
    fail_if (not (is_fresh_step enrollment.last_totp_step step)) invalid_totp_code
    record_login_step member step db

  abbrev pub is_invalid_totp : MfaError → Bool
  is_invalid_totp invalid_totp_code = true
  is_invalid_totp other = false

  abbrev pub or_recover :
      List ℕ → Result MfaError MfaDb → Result MfaError MfaDb → Result MfaError MfaDb
  or_recover recovery (ok db) rest = ok db
  or_recover recovery (err e) rest =
      if is_invalid_totp e && not (is_empty recovery) then rest else err e

  unfoldable pub verify_login_code : Time → ℕ → List ℕ → List ℕ → MfaDb → Result MfaError MfaDb
  verify_login_code now member totp recovery db = do
    fail_if (is_empty totp && is_empty recovery) verification_required
    enrollment ← require_confirmed_enrollment member db
    let spent = spend_recovery_code now recovery (list_unused_recovery_codes member db) db
    if is_empty totp
        then spent
        else or_recover recovery (verify_login_totp now member enrollment totp db) spent

  unfoldable pub verify_totp_or_recovery :
      Time → ℕ → List ℕ → List ℕ → MfaDb → Result MfaError MfaDb
  verify_totp_or_recovery now member totp recovery db = do
    fail_if (is_empty totp && is_empty recovery) verification_required
    enrollment ← require_confirmed_enrollment member db
    let spent = spend_recovery_code now recovery (list_unused_recovery_codes member db) db
    if is_empty totp then spent else (do
      secret ← or_fail (s.decrypt enrollment.totp_secret_enc) internal_error
      if s.validate now totp secret
          then ok db
          else (if is_empty recovery then err invalid_totp_code else spent))

  -- The member's remembered devices are revoked before the enrollment goes, in statements of their
  -- own: what was written stays when a later one fails.
  abbrev pub revoke_and_delete : ℕ → ℕ → MfaDb → MfaDb × Result MfaError (Unit {0})
  revoke_and_delete household member db =
      let revoked = revoke_all member db in
      or_stay revoked (delete_enrollment household member revoked)

  abbrev disenroll_verified :
      ℕ → ℕ → MfaDb → Result MfaError MfaDb → MfaDb × Result MfaError (Unit {0})
  disenroll_verified household member db (err e) = (db, err e)
  disenroll_verified household member db (ok db') = revoke_and_delete household member db'

  unfoldable pub disenroll :
      Time → ℕ → ℕ → List ℕ → List ℕ → MfaDb → MfaDb × Result MfaError (Unit {0})
  disenroll now member household totp recovery db =
      disenroll_verified household member db (verify_totp_or_recovery now member totp recovery db)

  -- The household of an owner who may reset the target and gave the right password.
  unfoldable pub authorize_reset : ℕ → List ℕ → ℕ → Result MfaError ℕ
  authorize_reset acting password target = do
    owner ← or_fail (s.members acting) member_not_found
    fail_if (not owner.is_owner) not_household_owner
    other ← or_fail (s.members target) not_enrolled
    fail_if (not (other.household == owner.household)) not_enrolled
    stored ← or_fail owner.password_hash owner_reauth_required
    fail_if (not (is_match (s.verify password stored))) owner_reauth_required
    ok owner.household

  abbrev pub reset_authorized : ℕ → MfaDb → Result MfaError ℕ → MfaDb × Result MfaError (Unit {0})
  reset_authorized target db (err e) = (db, err e)
  reset_authorized target db (ok household) = revoke_and_delete household target db

  unfoldable pub reset_member_mfa : ℕ → List ℕ → ℕ → MfaDb → MfaDb × Result MfaError (Unit {0})
  reset_member_mfa acting password target db =
      reset_authorized target db (authorize_reset acting password target)
