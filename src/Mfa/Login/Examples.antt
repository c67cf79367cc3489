-- ===== src/Mfa/Login/Examples.antt =====
-- A member with two-factor login, who gives the password and then a code.
use nestova.Base.{
  ℕ, ◌≡◌, refl, true, false, List, [], ◌∷◌, Option, none, some, any, find, update, is_key,
}
use nestova.Mfa.{MfaEnrollment, same_bytes}
use nestova.Mfa.Store.{get_enrollment, record_login_step}
use nestova.Mfa.Service.{
  MfaService, verify_login_totp, verify_login_code, require_confirmed_enrollment,
}
use nestova.Mfa.Login.{
  LoginPorts, LoginState, LoginEvent, login_locked, login, verify_code, login_step, login_steps,
}
use nestova.Mfa.Login.SecondFactor.{IsLockedOut, gave_factor, login_steps-gave_factor}

-- A code is the step it is for.
abbrev provider : MfaService
provider = record {
  encrypt = λ text. some text;
  decrypt = λ text. some text;
  validate = λ now code secret. true;
  match_step = λ now code secret. step_in code;
  hash = λ text. some text;
  verify = λ text hashed. some (same_bytes text hashed);
  members = λ m. none;
  new_code = λ k. (k, k ∷ []);
}
  where
    step_in : List ℕ → Option ℕ
    step_in [] = none
    step_in (step ∷ rest) = some step

abbrev ports : LoginPorts
ports = record {
  mfa = provider;
  has_passkey = λ m. false;
  verify_passkey = λ m assertion. false;
  decode_token = λ token. some token;
  hash_token = λ raw. raw;
}

abbrev confirmed_enrollment : MfaEnrollment
confirmed_enrollment = record {
  member = 8;
  household = 1;
  totp_secret_enc = 1 ∷ [];
  confirmed_at = some 5;
  last_totp_step = some 100;
}

abbrev anonymous : LoginState
anonymous = record {
  db = record {
    enrollments = confirmed_enrollment ∷ [];
    recovery_codes = [];
    remembered_devices = [];
  };
  attempts = λ m. none;
  session = record { member = none; pending_member = none; verified_at = none };
}

abbrev events : List LoginEvent
events = LoginEvent.password (some 8) none 50 ∷ LoginEvent.code (101 ∷ []) [] none 60 ∷ []

locked_out : IsLockedOut ports 8 anonymous
unfolding get_enrollment find any
locked_out = record { needs = refl; no_device = refl; no_session = refl }

logged_in : is_key (login_steps ports events anonymous).session.member 8 ≡ true
unfolding login_steps login_step login verify_code login_locked verify_login_code verify_login_totp
    require_confirmed_enrollment get_enrollment record_login_step find any update
logged_in = refl

login_steps-gave_factor_example : gave_factor ports 8 events anonymous ≡ true
login_steps-gave_factor_example =
    login_steps-gave_factor ports 8 events anonymous locked_out logged_in
