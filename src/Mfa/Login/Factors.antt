-- ===== src/Mfa/Login/Factors.antt =====
-- What a login code changes: internal/auth/app/mfa.go (VerifyLoginCode) and
-- internal/auth/adapter/mfa_postgres.go.
use nestova.Base.{
  ℕ, ◌≡◌, refl, Bool, false, not, ◌&&◌, List, [], ◌∷◌, Option, none, some, Result, ok, err, or_fail,
  OnSuccess, OnSuccess-guard, OnSuccess-or_fail, OnSuccess-bind, ◌==◌, if◌then◌else◌, any, find,
  select, update, find-update, arith, Bool-cases, inl, inr,
}
use mathlib.Core.Option
use nestova.Clock.{Time}
use nestova.Mfa.{MfaError, not_enrolled, MfaEnrollment, MfaDb, is_empty}
use nestova.Mfa.Store.{
  is_enrolled, get_enrollment, is_usable, mark_recovery_code_used, takes_step, stepped,
  record_login_step, list_unused_recovery_codes, is_fresh_step,
}
use nestova.Mfa.Service.{
  MfaService, match_recovery_code, spend_recovery_code, verify_login_totp, verify_login_code,
  require_confirmed_enrollment, or_recover, is_invalid_totp,
}
use nestova.Mfa.Login.{is_confirmed_result}

pub any-select_none {ℓ} :
    {A : Type ℓ} (q r : A → Bool) (xs : List A) → any q xs ≡ false → any q (select r xs) ≡ false
unfolding any select
any-select_none q r [] h = refl
any-select_none q r (x ∷ xs) h =
    ground (arith, h, Bool-cases (q x), Bool-cases (r x), any-select_none q r xs)

pub any-update_none {ℓ} :
    {A : Type ℓ} (q r : A → Bool) (f : A → A) (xs : List A)
    → ((x : A) → q (f x) ≡ q x)
    → any q xs ≡ false
    → any q (update r f xs) ≡ false
unfolding any update
any-update_none q r f [] same h = refl
any-update_none q r f (x ∷ xs) same h =
    ground (arith, h, same x, Bool-cases (q x), Bool-cases (r x), any-update_none q r f xs same)

abbrev pub has_device : ℕ → MfaDb → Bool
has_device m db = any (λ d. d.member == m) db.remembered_devices

-- Remembered devices are the same, and who has confirmed an enrollment.
pub record KeepsFactors (db db' : MfaDb) : Type 0 where
  pub devices : db'.remembered_devices ≡ db.remembered_devices
  pub factors :
      (m : ℕ)
      → is_confirmed_result (get_enrollment m db') ≡ is_confirmed_result (get_enrollment m db)

mark_code-KeepsFactors :
    (now id : ℕ) (db : MfaDb) → OnSuccess (KeepsFactors db) (mark_recovery_code_used now id db)
unfolding mark_recovery_code_used get_enrollment
mark_code-KeepsFactors now id db =
    OnSuccess-guard (KeepsFactors db) (not (any (is_usable id) db.recovery_codes)) _ _
      λ usable. record { devices = refl; factors = λ m. refl }

record_step-KeepsFactors :
    (member step : ℕ) (db : MfaDb) → OnSuccess (KeepsFactors db) (record_login_step member step db)
unfolding record_login_step get_enrollment
record_step-KeepsFactors member step db =
    OnSuccess-guard (KeepsFactors db) (not (any (takes_step member step) db.enrollments)) _ _
      λ fresh. record {
        devices = refl;
        factors = λ m.
            let moved =
              find-update (is_enrolled m) (takes_step member step) (stepped step) db.enrollments
                (λ e. refl) in
            same m (find (is_enrolled m) db.enrollments) moved;
      }
  where
    same :
        (m : ℕ) (o : Option MfaEnrollment)
        → find (is_enrolled m) (update (takes_step member step) (stepped step) db.enrollments)
          ≡ Option.map (λ e. if takes_step member step e then stepped step e else e) o
        → is_confirmed_result (
            or_fail
              (find (is_enrolled m) (update (takes_step member step) (stepped step) db.enrollments))
              not_enrolled)
          ≡ is_confirmed_result (or_fail o not_enrolled)
    same m none e = rw e refl
    same m (some en) e =
        rw e
          (elim (Bool-cases (takes_step member step en)) [ inl t ↦ rw t refl | inr t ↦ rw t refl ])

module _ (s : MfaService) where
  spend-KeepsFactors :
      (now : Time) (raw : List ℕ) (db : MfaDb) (member : ℕ)
      → OnSuccess
          (KeepsFactors db)
          (spend_recovery_code s now raw (list_unused_recovery_codes member db) db)
  unfolding spend_recovery_code
  spend-KeepsFactors now raw db member =
      OnSuccess-or_fail (KeepsFactors db)
        (match_recovery_code s raw (list_unused_recovery_codes member db)) _ _
        λ id e. mark_code-KeepsFactors now id db

  totp-KeepsFactors :
      (now member : ℕ) (enrollment : MfaEnrollment) (totp : List ℕ) (db : MfaDb)
      → OnSuccess (KeepsFactors db) (verify_login_totp s now member enrollment totp db)
  unfolding verify_login_totp
  totp-KeepsFactors now member enrollment totp db =
      OnSuccess-or_fail (KeepsFactors db) (s.decrypt enrollment.totp_secret_enc) _ _ λ secret e.
        OnSuccess-or_fail (KeepsFactors db) (s.match_step now totp secret) _ _ λ step e2.
          OnSuccess-guard (KeepsFactors db) (not (is_fresh_step enrollment.last_totp_step step)) _ _
            λ fresh. record_step-KeepsFactors member step db

  recover-KeepsFactors :
      (recovery : List ℕ) (db : MfaDb) (first rest : Result MfaError MfaDb)
      → OnSuccess (KeepsFactors db) first
      → OnSuccess (KeepsFactors db) rest
      → OnSuccess (KeepsFactors db) (or_recover s recovery first rest)
  recover-KeepsFactors recovery db (ok made) rest h k = h
  recover-KeepsFactors recovery db (err e) rest h k =
      elim (Bool-cases (is_invalid_totp s e && not (is_empty recovery))) [
        | inl t ↦ rw t k
        | inr t ↦ rw t tt
      ]

  pub verify-KeepsFactors :
      (now member : ℕ) (totp recovery : List ℕ) (db : MfaDb)
      → OnSuccess (KeepsFactors db) (verify_login_code s now member totp recovery db)
  unfolding verify_login_code
  verify-KeepsFactors now member totp recovery db =
      let spent = spend_recovery_code s now recovery (list_unused_recovery_codes member db) db in
      OnSuccess-guard (KeepsFactors db) (is_empty totp && is_empty recovery) _ _ λ given.
        OnSuccess-bind (KeepsFactors db) (λ e. Unit {0}) (require_confirmed_enrollment s member db)
          _ (all_fine (require_confirmed_enrollment s member db))
          λ enrollment u. elim (Bool-cases (is_empty totp)) [
            | inl t ↦ rw t (spend-KeepsFactors now recovery db member)
            | inr t ↦ rw t (
                recover-KeepsFactors recovery db (verify_login_totp s now member enrollment totp db)
                  spent (totp-KeepsFactors now member enrollment totp db)
                  (spend-KeepsFactors now recovery db member))
          ]
    where
      all_fine : (r : Result MfaError MfaEnrollment) → OnSuccess (λ e. Unit {0}) r
      all_fine (ok e) = tt
      all_fine (err e) = tt
