-- ===== src/Mfa.antt =====
-- Two-factor login: internal/auth/domain/mfa.go and recovery_code_gen.go, and the tables behind
-- internal/auth/adapter/mfa_postgres.go and remembered_device_postgres.go.
pub mod Store
pub mod Service
pub mod Login
mod Examples
use nestova.Base.{
  ℕ, ◌-◌, Bool, true, false, not, ◌&&◌, ◌||◌, List, [], ◌∷◌, Option, none, some, leb, ltb, ◌==◌,
  if◌then◌else◌, is_none,
}
use nestova.Clock.{Time}
use nestova.Text.{to_upper}
pub use nestova.Text.{is_empty, same_bytes}

pub data MfaError : Type 0 where
  already_enrolled not_enrolled invalid_totp_code recovery_code_invalid verification_required
        owner_reauth_required not_household_owner member_not_found internal_error :
      MfaError

-- Texts and secrets are lists of their bytes.
pub record MfaEnrollment : Type 0 where
  pub member : ℕ
  pub household : ℕ
  pub totp_secret_enc : List ℕ
  pub confirmed_at : Option Time
  pub last_totp_step : Option ℕ

pub record RecoveryCode : Type 0 where
  pub id : ℕ
  pub member : ℕ
  pub code_hash : List ℕ
  pub used_at : Option Time

pub record RememberedDevice : Type 0 where
  pub id : ℕ
  pub member : ℕ
  pub token_hash : List ℕ
  pub created_at : Time
  pub expires_at : Time
  pub last_used_at : Time

pub record MfaDb : Type 0 where
  pub enrollments : List MfaEnrollment
  pub recovery_codes : List RecoveryCode
  pub remembered_devices : List RememberedDevice

abbrev pub confirmed : MfaEnrollment → Bool
confirmed e = not (is_none e.confirmed_at)

-- O reads as 0, I and L as 1.
abbrev alias : ℕ → ℕ
alias c = if c == 79 then 48 else (if c == 73 || c == 76 then 49 else c)

-- Of a text of ASCII characters that comes trimmed: dashes and spaces are left out.
unfoldable pub normalize_recovery_code : List ℕ → List ℕ
normalize_recovery_code [] = []
normalize_recovery_code (c ∷ text) =
    let rest = normalize_recovery_code text in
    if c == 45 || c == 32 then rest else alias (to_upper c) ∷ rest
