-- ===== src/Kiosk.antt =====
-- A household's kiosk device and the codes that provision it: internal/kiosk/domain
-- (activation_code.go, kiosk_device.go), and the tables of
-- internal/platform/db/migrate/migrations/00026_kiosk_device.sql.
pub mod Codes
pub mod Store
pub mod Service
pub mod Histories
mod Examples
use nestova.Base.{
  ℕ, ◌*◌, Bool, not, ◌&&◌, List, Option, Result, ok, ◌>>◌, fail_if, ltb, ◌==◌, length, is_none,
}
use nestova.Clock.{Time, minute}
use nestova.Text.{is_empty, trim_space}

pub data KioskError : Type 0 where
  activation_code_not_found activation_code_used activation_code_expired invalid_activation_code
        device_name_too_long kiosk_device_not_found kiosk_device_revoked household_not_found
        internal_error :
      KioskError

abbrev pub activation_code_ttl : Time
activation_code_ttl = 15 * minute

abbrev max_device_name_length : ℕ
max_device_name_length = 200

-- Identifiers are numbers, with 0 for the nil one; texts are lists of their characters.
pub record ActivationCode : Type 0 where
  pub id : ℕ
  pub household : ℕ
  pub code_hash : List ℕ
  pub name : List ℕ
  pub expires_at : Time
  pub used_at : Option Time

pub record KioskDevice : Type 0 where
  pub id : ℕ
  pub household : ℕ
  pub token_hash : List ℕ
  pub name : List ℕ
  pub created_at : Time
  pub revoked_at : Option Time

pub record KioskDb : Type 0 where
  pub codes : List ActivationCode
  pub devices : List KioskDevice

unfoldable pub validate_code : ActivationCode → Result KioskError (Unit {0})
validate_code c = do
  fail_if (c.id == 0) invalid_activation_code
  fail_if (c.household == 0) invalid_activation_code
  fail_if (is_empty (trim_space c.name)) invalid_activation_code
  fail_if (ltb max_device_name_length (length c.name)) device_name_too_long
  fail_if (is_empty (trim_space c.code_hash)) invalid_activation_code
  fail_if (c.expires_at == 0) invalid_activation_code
  ok tt

abbrev pub is_active : KioskDevice → Bool
is_active d = is_none d.revoked_at
