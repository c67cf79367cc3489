-- ===== src/Mfa/Store.antt =====
-- The statements on the tables of two-factor login: internal/auth/adapter/mfa_postgres.go and
-- remembered_device_postgres.go. Recovery codes of one member are written in one transaction, so
-- their order by creation time is the order of the table. Deleting an enrollment deletes what
-- refers to it.
use nestova.Base.{
  ℕ, Bool, true, false, not, ◌&&◌, ◌||◌, List, [], ◌∷◌, ◌++◌, Option, none, some, leb, ltb, ◌==◌,
  is_none, any, find, select, update, Result, ok, err, ◌>>=◌, ◌>>◌, fail_if, or_fail,
}
use nestova.Clock.{Time}
use nestova.Mfa.{
  MfaError, already_enrolled, not_enrolled, invalid_totp_code, recovery_code_invalid,
  member_not_found, internal_error, MfaEnrollment, RecoveryCode, RememberedDevice, MfaDb, confirmed,
  is_empty, same_bytes,
}

abbrev pub is_enrolled : ℕ → MfaEnrollment → Bool
is_enrolled member e = e.member == member

abbrev pub is_code_of : ℕ → RecoveryCode → Bool
is_code_of member c = c.member == member

unfoldable pub get_enrollment : ℕ → MfaDb → Result MfaError MfaEnrollment
get_enrollment member db = or_fail (find (is_enrolled member) db.enrollments) not_enrolled

-- A member who is not of the household violates the foreign key.
abbrev begin_at : Bool → ℕ → ℕ → List ℕ → MfaDb → Option MfaEnrollment → Result MfaError MfaDb
begin_at in_household member household secret db none = do
  fail_if (is_empty secret) internal_error
  fail_if (not in_household) member_not_found
  ok (record db {
    enrollments =
        record {
          member = member;
          household = household;
          totp_secret_enc = secret;
          confirmed_at = none;
          last_totp_step = none;
        }
        ∷ db.enrollments;
  })
begin_at in_household member household secret db (some e) = do
  fail_if (not (e.household == household)) member_not_found
  fail_if (confirmed e) already_enrolled
  fail_if (is_empty secret) internal_error
  ok (record db {
    enrollments =
        update (is_enrolled member)
          (λ old. record old { totp_secret_enc = secret; confirmed_at = none }) db.enrollments;
  })

unfoldable pub begin_enrollment : (ℕ → ℕ → Bool) → ℕ → ℕ → List ℕ → MfaDb → Result MfaError MfaDb
begin_enrollment in_household member household secret db =
    begin_at (in_household household member) member household secret db
      (find (is_enrolled member) db.enrollments)

-- Each code's identifier is new.
unfoldable pub insert_codes :
    ℕ → List (ℕ × List ℕ) → List RecoveryCode → Result MfaError (List RecoveryCode)
insert_codes member [] codes = ok codes
insert_codes member ((id, hash) ∷ hashes) codes = do
  fail_if (any (λ c. c.id == id) codes) internal_error
  insert_codes member hashes
      (codes ++ record { id = id; member = member; code_hash = hash; used_at = none } ∷ [])

abbrev pub without_codes : ℕ → List RecoveryCode → List RecoveryCode
without_codes member codes = select (λ c. not (is_code_of member c)) codes

unfoldable pub confirm_enrollment_with_codes :
    Time → ℕ → List (ℕ × List ℕ) → MfaDb → Result MfaError MfaDb
confirm_enrollment_with_codes now member hashes db = do
  e ← or_fail (find (is_enrolled member) db.enrollments) not_enrolled
  fail_if (confirmed e) already_enrolled
  codes ← insert_codes member hashes (without_codes member db.recovery_codes)
  ok (record db {
    enrollments =
        update (is_enrolled member) (λ old. record old { confirmed_at = some now }) db.enrollments;
    recovery_codes = codes;
  })

-- The rows of an enrollment that goes, and what refers to it.
abbrev pub is_deleted : ℕ → ℕ → MfaEnrollment → Bool
is_deleted household member e = is_enrolled member e && e.household == household

unfoldable pub delete_enrollment : ℕ → ℕ → MfaDb → Result MfaError MfaDb
delete_enrollment household member db = do
  fail_if (not (any (is_deleted household member) db.enrollments)) not_enrolled
  ok (record {
    enrollments = select (λ e. not (is_deleted household member e)) db.enrollments;
    recovery_codes = without_codes member db.recovery_codes;
    remembered_devices = select (λ d. not (d.member == member)) db.remembered_devices;
  })

unfoldable pub replace_recovery_codes : ℕ → List (ℕ × List ℕ) → MfaDb → Result MfaError MfaDb
replace_recovery_codes member hashes db = do
  fail_if (not (any (is_enrolled member) db.enrollments)) internal_error
  codes ← insert_codes member hashes (without_codes member db.recovery_codes)
  ok (record db { recovery_codes = codes })

abbrev pub is_unused_of : ℕ → RecoveryCode → Bool
is_unused_of member c = is_code_of member c && is_none c.used_at

unfoldable pub list_unused_recovery_codes : ℕ → MfaDb → List RecoveryCode
list_unused_recovery_codes member db = select (is_unused_of member) db.recovery_codes

abbrev pub is_usable : ℕ → RecoveryCode → Bool
is_usable id c = c.id == id && is_none c.used_at

unfoldable pub mark_recovery_code_used : Time → ℕ → MfaDb → Result MfaError MfaDb
mark_recovery_code_used now id db = do
  fail_if (not (any (is_usable id) db.recovery_codes)) recovery_code_invalid
  ok (record db {
    recovery_codes = update (is_usable id) (λ c. record c { used_at = some now }) db.recovery_codes;
  })

-- The step is later than the last one, if there was one.
abbrev pub is_fresh_step : Option ℕ → ℕ → Bool
is_fresh_step none step = true
is_fresh_step (some last) step = ltb last step

abbrev pub takes_step : ℕ → ℕ → MfaEnrollment → Bool
takes_step member step e = is_enrolled member e && is_fresh_step e.last_totp_step step

abbrev pub stepped : ℕ → MfaEnrollment → MfaEnrollment
stepped step e = record e { last_totp_step = some step }

unfoldable pub record_login_step : ℕ → ℕ → MfaDb → Result MfaError MfaDb
record_login_step member step db = do
  fail_if (not (any (takes_step member step) db.enrollments)) invalid_totp_code
  ok (record db { enrollments = update (takes_step member step) (stepped step) db.enrollments })

abbrev pub is_confirmed_by : Time → Option Time → Bool
is_confirmed_by now none = false
is_confirmed_by now (some at) = leb at now

abbrev pub is_confirmed_member : Time → ℕ → MfaEnrollment → Bool
is_confirmed_member now member e = is_enrolled member e && is_confirmed_by now e.confirmed_at

abbrev pub clashes : RememberedDevice → RememberedDevice → Bool
clashes device d = d.id == device.id || same_bytes d.token_hash device.token_hash

-- The member's expired devices go, in a statement of its own. Then the device is remembered, for a
-- confirmed enrollment only.
abbrev pub swept_devices : RememberedDevice → MfaDb → MfaDb
swept_devices device db = record db {
  remembered_devices =
      select (λ d. not (d.member == device.member && leb d.expires_at device.created_at))
        db.remembered_devices;
}

abbrev pub insert_device : RememberedDevice → MfaDb → Result MfaError MfaDb
insert_device device db = do
  fail_if (not (any (is_confirmed_member device.created_at device.member) db.enrollments))
      not_enrolled
  fail_if (leb device.expires_at device.created_at) internal_error
  fail_if (any (clashes device) db.remembered_devices) internal_error
  ok (record db { remembered_devices = device ∷ db.remembered_devices })

abbrev pub or_stay : MfaDb → Result MfaError MfaDb → MfaDb × Result MfaError (Unit {0})
or_stay db (ok db') = (db', ok tt)
or_stay db (err e) = (db, err e)

unfoldable pub create_device : RememberedDevice → MfaDb → MfaDb × Result MfaError (Unit {0})
create_device device db =
    let swept = swept_devices device db in or_stay swept (insert_device device swept)

abbrev pub is_live_device : ℕ → List ℕ → Time → RememberedDevice → Bool
is_live_device member hash now d =
    d.member == member && same_bytes d.token_hash hash && ltb now d.expires_at

-- Whether a device is remembered, which stamps it.
unfoldable pub mark_device_used : ℕ → List ℕ → Time → MfaDb → MfaDb × Bool
mark_device_used member hash now db = (
  record db {
    remembered_devices =
        update (is_live_device member hash now) (λ d. record d { last_used_at = now })
          db.remembered_devices;
  },
  any (is_live_device member hash now) db.remembered_devices,
)

unfoldable pub revoke_all : ℕ → MfaDb → MfaDb
revoke_all member db = record db {
  remembered_devices = select (λ d. not (d.member == member)) db.remembered_devices;
}
