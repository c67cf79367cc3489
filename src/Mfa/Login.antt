-- ===== src/Mfa/Login.antt =====
-- Logging in: internal/auth/adapter/http.go (Login, Logout), login_mfa.go (Verify, PasskeyFinish) and
-- login_attempt_limiter.go, with internal/auth/app/remember.go. Requests come with a valid CSRF token
-- and are not throttled. Who a password is right for, passkeys, the token's text encoding and its hash
-- are arguments; the new token and its identifier come with each request. One browser's session is
-- followed.
pub mod Factors
pub mod Devices
pub mod SecondFactor
mod Examples
use nestova.Base.{
  ℕ, ◌+◌, ◌*◌, Bool, true, false, not, ◌&&◌, ◌||◌, List, [], ◌∷◌, Option, none, some, Result, ok,
  err, ltb, leb, ◌==◌, if◌then◌else◌, length,
}
use nestova.Clock.{Time, hour, minute}
use nestova.Mfa.{
  MfaError, already_enrolled, not_enrolled, invalid_totp_code, recovery_code_invalid,
  verification_required, MfaEnrollment, RememberedDevice, MfaDb, confirmed, is_empty,
}
use nestova.Mfa.Store.{get_enrollment, create_device, mark_device_used}
use nestova.Mfa.Service.{MfaService, verify_login_code}

abbrev login_mfa_attempt_threshold : ℕ
login_mfa_attempt_threshold = 5

abbrev login_mfa_backoff_window : Time
login_mfa_backoff_window = 5 * minute

-- `backoff_until` is 0, the zero time, while there is no lockout.
pub record LoginAttemptState : Type 0 where
  pub strike_count : ℕ
  pub backoff_until : Time

abbrev pub LoginAttempts : Type 0
LoginAttempts = ℕ → Option LoginAttemptState

unfoldable pub login_locked : ℕ → Time → LoginAttempts → Bool
login_locked member now l = elim (l member) [ none ↦ false | some st ↦ ltb now st.backoff_until ]

-- The state that a new failure is counted on.
abbrev fresh_attempts : Time → Option LoginAttemptState → LoginAttemptState
fresh_attempts now none = record { strike_count = 0; backoff_until = 0 }
fresh_attempts now (some st) =
    if not (st.backoff_until == 0) && leb st.backoff_until now
    then record { strike_count = 0; backoff_until = 0 }
    else st

abbrev struck : Time → LoginAttemptState → LoginAttemptState
struck now st =
    if st.strike_count + 1 == login_mfa_attempt_threshold + 1
    then record {
      strike_count = st.strike_count + 1;
      backoff_until = now + login_mfa_backoff_window;
    }
    else record st { strike_count = st.strike_count + 1 }

abbrev pub record_login_failure : ℕ → Time → LoginAttempts → LoginAttempts
record_login_failure member now l k =
    if k == member then some (struck now (fresh_attempts now (l member))) else l k

abbrev pub record_login_success : ℕ → LoginAttempts → LoginAttempts
record_login_success member l k = if k == member then none else l k

abbrev pub remember_device_ttl : Time
remember_device_ttl = 30 * 24 * hour

abbrev pub remember_token_bytes : ℕ
remember_token_bytes = 32

pub record LoginPorts : Type 0 where
  pub mfa : MfaService
  pub has_passkey : ℕ → Bool
  pub verify_passkey : ℕ → List ℕ → Bool
  pub decode_token : List ℕ → Option (List ℕ)
  pub hash_token : List ℕ → List ℕ

-- The session of a browser.
pub record LoginSession : Type 0 where
  pub member : Option ℕ
  pub pending_member : Option ℕ
  pub verified_at : Option Time

pub record LoginState : Type 0 where
  pub db : MfaDb
  pub attempts : LoginAttempts
  pub session : LoginSession

pub data LoginEvent : Type 0 where
  password : Option ℕ → Option (List ℕ) → Time → LoginEvent
  code : List ℕ → List ℕ → Option (ℕ × List ℕ) → Time → LoginEvent
  passkey : List ℕ → Time → LoginEvent
  logout : LoginEvent

abbrev pub finish_login : ℕ → Bool → Time → LoginSession → LoginSession
finish_login member verified now session = record {
  member = some member;
  pending_member = none;
  verified_at = if verified then some now else none;
}

abbrev pub is_expected_mfa_error : MfaError → Bool
is_expected_mfa_error not_enrolled = true
is_expected_mfa_error already_enrolled = true
is_expected_mfa_error invalid_totp_code = true
is_expected_mfa_error recovery_code_invalid = true
is_expected_mfa_error verification_required = true
is_expected_mfa_error _ = false

abbrev pub is_confirmed_result : Result MfaError MfaEnrollment → Bool
is_confirmed_result (ok e) = confirmed e
is_confirmed_result (err e) = false

module _ (p : LoginPorts) where
  -- RememberDeviceService.Issue, with the new token.
  unfoldable pub issue : ℕ → ℕ → List ℕ → Time → MfaDb → MfaDb
  issue member id raw now db =
      (create_device
        (record {
          id = id;
          member = member;
          token_hash = p.hash_token raw;
          created_at = now;
          expires_at = now + remember_device_ttl;
          last_used_at = now;
        })
        db).0

  abbrev pub marked_token : ℕ → Time → MfaDb → Option (List ℕ) → MfaDb × Bool
  marked_token member now db none = (db, false)
  marked_token member now db (some raw) =
      if length raw == remember_token_bytes
      then mark_device_used member (p.hash_token raw) now db
      else (db, false)

  unfoldable pub is_remembered : ℕ → List ℕ → Time → MfaDb → MfaDb × Bool
  is_remembered member token now db = marked_token member now db (p.decode_token token)

  abbrev pub has_confirmed_mfa : ℕ → MfaDb → Bool
  has_confirmed_mfa member db = is_confirmed_result (get_enrollment member db)

  abbrev pub needs_login_step_up : ℕ → MfaDb → Bool
  needs_login_step_up member db = has_confirmed_mfa member db || p.has_passkey member

  abbrev pub has_remembered_device : ℕ → Option (List ℕ) → Time → MfaDb → MfaDb × Bool
  has_remembered_device member none now db = (db, false)
  has_remembered_device member (some token) now db =
      if is_empty token then (db, false) else is_remembered member token now db

  -- With a remembered device the session is promoted, and else it waits for the second factor.
  abbrev pub after_cookie : ℕ → Time → LoginState → MfaDb × Bool → LoginState
  after_cookie member now st (db, true) = record st {
    db = db;
    session = finish_login member false now st.session;
  }
  after_cookie member now st (db, false) = record st {
    db = db;
    session = record st.session { pending_member = some member };
  }

  unfoldable pub login : Option ℕ → Option (List ℕ) → Time → LoginState → LoginState
  login none cookie now st = st
  login (some member) cookie now st =
      if needs_login_step_up member st.db
      then after_cookie member now st (has_remembered_device member cookie now st.db)
      else record st { session = finish_login member true now st.session }

  abbrev pub issue_if : Option (ℕ × List ℕ) → ℕ → Time → MfaDb → MfaDb
  issue_if none member now db = db
  issue_if (some (id, raw)) member now db = issue member id raw now db

  -- What follows the verification of a code.
  abbrev pub after_code :
      ℕ → Option (ℕ × List ℕ) → Time → LoginState → Result MfaError MfaDb → LoginState
  after_code member remember now st (ok db) = record {
    db = issue_if remember member now db;
    attempts = record_login_success member st.attempts;
    session = finish_login member true now st.session;
  }
  after_code member remember now st (err e) =
      if is_expected_mfa_error e
      then record st { attempts = record_login_failure member now st.attempts }
      else st

  unfoldable pub verify_code :
      Option ℕ → List ℕ → List ℕ → Option (ℕ × List ℕ) → Time → LoginState → LoginState
  verify_code none totp recovery remember now st = st
  verify_code (some member) totp recovery remember now st =
      if login_locked member now st.attempts
      then st
      else after_code member remember now st
          (verify_login_code p.mfa now member totp recovery st.db)

  unfoldable pub finish_passkey : Option ℕ → List ℕ → Time → LoginState → LoginState
  finish_passkey none assertion now st = st
  finish_passkey (some member) assertion now st =
      if p.verify_passkey member assertion
      then record st { session = finish_login member true now st.session }
      else st

  abbrev pub logged_out : LoginSession
  logged_out = record { member = none; pending_member = none; verified_at = none }

  unfoldable pub login_step : LoginEvent → LoginState → LoginState
  login_step (LoginEvent.password who cookie now) st = login who cookie now st
  login_step (LoginEvent.code totp recovery remember now) st =
      verify_code st.session.pending_member totp recovery remember now st
  login_step (LoginEvent.passkey assertion now) st =
      finish_passkey st.session.pending_member assertion now st
  login_step LoginEvent.logout st = record st { session = logged_out }

  unfoldable pub login_steps : List LoginEvent → LoginState → LoginState
  login_steps [] st = st
  login_steps (e ∷ events) st = login_steps events (login_step e st)
