-- ===== src/Mfa/Service/Replay.antt =====
-- Logins that race for the same code: internal/auth/app/mfa.go (verifyLoginTOTP, matchRecoveryCode)
-- and internal/auth/adapter/mfa_postgres.go.
use nestova.Base.{
  ℕ, ◌≤◌, ◌<◌, ◌≡◌, refl, subst, Bool, true, false, not, ◌&&◌, List, [], ◌∷◌, Option, none, some,
  if◌then◌else◌, any, find, count, arith, count-any, count-le, count-update, find-key, find-update,
  find-test, Result, ok, err, or_fail, guard-ok, bind-ok, ok_inj, or_fail-ok, not-false,
}
use nestova.Clock.{Time}
use nestova.Mfa.{MfaError, invalid_totp_code, internal_error, MfaEnrollment, MfaDb}
use nestova.Mfa.Store.{is_enrolled, is_fresh_step, takes_step, stepped, record_login_step}
use nestova.Mfa.Service.{MfaService, verify_login_totp}

-- A login with a code, and the enrollment that it read some time before.
pub record LoginAttempt : Type 0 where
  pub now : Time
  pub enrollment : MfaEnrollment
  pub code : List ℕ

abbrev pub or_same : MfaDb → Result MfaError MfaDb → MfaDb
or_same db (ok db') = db'
or_same db (err e) = db

abbrev pub is_accepted : Result MfaError MfaDb → Bool
is_accepted (ok db) = true
is_accepted (err e) = false

-- The step that an attempt's code is for, 0 when it is for none.
abbrev pub step_of : MfaService → LoginAttempt → ℕ
step_of s a = step (s.decrypt a.enrollment.totp_secret_enc)
  where
    matched : Option ℕ → ℕ
    matched none = 0
    matched (some k) = k

    step : Option (List ℕ) → ℕ
    step none = 0
    step (some secret) = matched (s.match_step a.now a.code secret)

-- The steps of the attempts that are accepted, one after the other.
unfoldable pub accepted_steps : MfaService → ℕ → List LoginAttempt → MfaDb → List ℕ
accepted_steps s member [] db = []
accepted_steps s member (a ∷ attempts) db =
    let result = verify_login_totp s a.now member a.enrollment a.code db in
    let later = accepted_steps s member attempts (or_same db result) in
    if is_accepted result then step_of s a ∷ later else later

-- Later than the step recorded before, if there is one.
abbrev pub IsLater : Option ℕ → ℕ → Type 0
IsLater none step = Unit
IsLater (some last) step = last < step

is_fresh_step-IsLater :
    (last : Option ℕ) (step : ℕ) → is_fresh_step last step ≡ true → IsLater last step
is_fresh_step-IsLater none step h = tt
is_fresh_step-IsLater (some last) step h = ground (arith, h)

-- Each later than the one before, and the first later than a given one.
abbrev pub Rises : Option ℕ → List ℕ → Type 0
Rises last [] = Unit
Rises last (step ∷ steps) = IsLater last step × Rises (some step) steps

abbrev step_in : Option MfaEnrollment → Option ℕ
step_in none = none
step_in (some e) = e.last_totp_step

abbrev pub last_step : ℕ → MfaDb → Option ℕ
last_step member db = step_in (find (is_enrolled member) db.enrollments)

-- What recording a step does to a member's only enrollment.
record_lem :
    (member step : ℕ) (db db' : MfaDb)
    → count (is_enrolled member) db.enrollments ≤ 1
    → record_login_step member step db ≡ ok db'
    → (is_fresh_step (last_step member db) step ≡ true)
      × (last_step member db' ≡ some step)
      × (count (is_enrolled member) db'.enrollments ≤ 1)
unfolding record_login_step
record_lem member step db db' one h =
    let (some_row, made) =
      guard-ok (not (any (takes_step member step) db.enrollments)) invalid_totp_code _ h in
    let takes = count-any (takes_step member step) db.enrollments (not-false _ some_row) in
    let (e, found, fresh) =
      find-key (λ e. is_fresh_step e.last_totp_step step) (is_enrolled member) db.enrollments one
        (omega (
          arith,
          takes,
          count-le (takes_step member step)
              (λ e. is_fresh_step e.last_totp_step step && is_enrolled member e) db.enrollments
              (λ e t. ground (arith, t)),
        )) in
    let own = find-test (is_enrolled member) db.enrollments found in
    let kept =
      count-update (is_enrolled member) (takes_step member step) (stepped step) db.enrollments
        (λ e t. refl) in
    (
      rw found fresh,
      subst (λ d. last_step member d ≡ some step) (ok_inj made)
          (rw
            (
              find-update (is_enrolled member) (takes_step member step) (stepped step)
                  db.enrollments (λ e. refl),
              found,
              own,
              fresh,
            )
            refl),
      subst (λ d. count (is_enrolled member) d.enrollments ≤ 1) (ok_inj made)
          (omega (arith, kept, one)),
    )

-- An accepted login records the step of its code.
accepted_lem :
    (s : MfaService) (member : ℕ) (a : LoginAttempt) (db db' : MfaDb)
    → verify_login_totp s a.now member a.enrollment a.code db ≡ ok db'
    → record_login_step member (step_of s a) db ≡ ok db'
unfolding verify_login_totp
accepted_lem s member a db db' h =
    let (secret, opened, h1) =
      bind-ok (or_fail (s.decrypt a.enrollment.totp_secret_enc) internal_error) _ h in
    let (step, matched, h2) =
      bind-ok (or_fail (s.match_step a.now a.code secret) invalid_totp_code) _ h1 in
    let (fresh, recorded) = guard-ok _ invalid_totp_code _ h2 in
    rw
      (
        or_fail-ok (s.decrypt a.enrollment.totp_secret_enc) internal_error opened,
        or_fail-ok (s.match_step a.now a.code secret) invalid_totp_code matched,
      )
      recorded

-- However logins of a member race, each with an enrollment that it read at any earlier time, the
-- steps of the accepted ones rise, beyond the last step recorded before: no code of the
-- authenticator is accepted twice. The member has at most one enrollment.
pub accepted_steps-Rises :
    (s : MfaService) (member : ℕ) (attempts : List LoginAttempt) (db : MfaDb)
    → count (is_enrolled member) db.enrollments ≤ 1
    → Rises (last_step member db) (accepted_steps s member attempts db)
unfolding accepted_steps
accepted_steps-Rises s member [] db one = tt
accepted_steps-Rises s member (a ∷ attempts) db one =
    outcome (λ d. accepted_steps-Rises s member attempts d)
      (verify_login_totp s a.now member a.enrollment a.code db) refl
  where
    outcome :
        ((d : MfaDb)
          → count (is_enrolled member) d.enrollments ≤ 1
          → Rises (last_step member d) (accepted_steps s member attempts d))
        → (r : Result MfaError MfaDb) → verify_login_totp s a.now member a.enrollment a.code db ≡ r
        → Rises (last_step member db) (
            let later = accepted_steps s member attempts (or_same db r) in
            if is_accepted r then step_of s a ∷ later else later)
    outcome ih (err e) p = ih db one
    outcome ih (ok db') p =
        let (fresh, last, one') =
          record_lem member (step_of s a) db db' one (accepted_lem s member a db db' p) in
        (
          is_fresh_step-IsLater (last_step member db) (step_of s a) fresh,
          subst (λ o. Rises o (accepted_steps s member attempts db')) last (ih db' one'),
        )
