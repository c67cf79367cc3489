-- ===== src/Mfa/Examples.antt =====
-- Logins and a reset at concrete data: internal/auth/app/mfa.go.
use nestova.Base.{
  ℕ, ◌≤◌, ◌≡◌, refl, true, List, [], ◌∷◌, Option, none, some, ◌==◌, any, count, select, update, ok,
  arith,
}
use nestova.Mfa.{MfaEnrollment, RecoveryCode, MfaDb, same_bytes, normalize_recovery_code}
use nestova.Mfa.Store.{record_login_step, mark_recovery_code_used, delete_enrollment, revoke_all}
use nestova.Mfa.Service.{
  MfaService, verify_login_totp, spend_recovery_code, match_recovery_code, first_match,
  authorize_reset, reset_member_mfa,
}
use nestova.Mfa.Service.Replay.{
  LoginAttempt, Rises, last_step, accepted_steps, accepted_steps-Rises,
}
use nestova.Mfa.Service.RecoveryCodes.{
  RecoveryAttempt, occurrences, spent_codes, usable_count, spent_codes-once,
}
use nestova.Mfa.Service.Reset.{MayReset, IsCleared, OthersStay, reset_member_mfa-IsCleared}

-- A code is the step it is for, and a hash is the text itself.
abbrev provider : MfaService
provider = record {
  encrypt = λ text. some text;
  decrypt = λ text. some text;
  validate = λ now code secret. true;
  match_step = λ now code secret. step_in code;
  hash = λ text. some text;
  verify = λ text hashed. some (same_bytes text hashed);
  members = λ m. some (record { household = 1; is_owner = m == 7; password_hash = some (m ∷ []) });
  new_code = λ k. (k, k ∷ []);
}
  where
    step_in : List ℕ → Option ℕ
    step_in [] = none
    step_in (step ∷ rest) = some step

abbrev enrollment : MfaEnrollment
enrollment = record {
  member = 8;
  household = 1;
  totp_secret_enc = 1 ∷ [];
  confirmed_at = some 5;
  last_totp_step = some 100;
}

abbrev code : RecoveryCode
code = record { id = 1; member = 8; code_hash = 65 ∷ 66 ∷ []; used_at = none }

abbrev db : MfaDb
db = record { enrollments = enrollment ∷ []; recovery_codes = code ∷ []; remembered_devices = [] }

abbrev attempt : LoginAttempt
attempt = record { now = 60; enrollment = enrollment; code = 101 ∷ [] }

-- Two logins with the same code that both read the enrollment first.
race : accepted_steps provider 8 (attempt ∷ attempt ∷ []) db ≡ 101 ∷ []
unfolding accepted_steps verify_login_totp record_login_step any update
race = refl

accepted_steps-Rises_example :
    Rises (last_step 8 db) (accepted_steps provider 8 (attempt ∷ attempt ∷ []) db)
unfolding count
accepted_steps-Rises_example =
    accepted_steps-Rises provider 8 (attempt ∷ attempt ∷ []) db (omega arith)

abbrev recovery : RecoveryAttempt
recovery = record { now = 60; raw = 97 ∷ 45 ∷ 98 ∷ []; codes = code ∷ [] }

spent : spent_codes provider (recovery ∷ recovery ∷ []) db ≡ 1 ∷ []
unfolding spent_codes spend_recovery_code match_recovery_code first_match normalize_recovery_code
    mark_recovery_code_used any update
spent = refl

spent_codes-once_example :
    occurrences 1 (spent_codes provider (recovery ∷ recovery ∷ []) db) ≤ usable_count 1 db
spent_codes-once_example = spent_codes-once provider (recovery ∷ recovery ∷ []) db 1

reset : (reset_member_mfa provider 7 (7 ∷ []) 8 db).1 ≡ ok tt
unfolding reset_member_mfa authorize_reset delete_enrollment revoke_all any select
reset = refl

reset_member_mfa-IsCleared_example :
    ((household : ℕ) × MayReset provider 7 (7 ∷ []) 8 household)
    × IsCleared 8 (reset_member_mfa provider 7 (7 ∷ []) 8 db).0
    × OthersStay 8 db (reset_member_mfa provider 7 (7 ∷ []) 8 db).0
unfolding count
reset_member_mfa-IsCleared_example =
    reset_member_mfa-IsCleared provider 7 (7 ∷ []) 8 db (omega arith) reset
