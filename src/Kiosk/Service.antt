-- ===== src/Kiosk/Service.antt =====
-- The use cases of internal/kiosk/app/kiosk_service.go. The hash is an argument; identifiers,
-- random bytes and tokens come with each call, with the time.
pub mod Redeemed
pub mod Provisioning
use nestova.Base.{
  ℕ, ◌+◌, Bool, not, List, [], ◌∷◌, Option, none, some, Result, ok, err, ◌>>=◌, ◌>>◌, fail_if,
  if◌then◌else◌, find,
}
use nestova.Clock.{Time}
use nestova.Text.{is_empty, trim_space}
use nestova.Kiosk.{
  KioskError, activation_code_not_found, kiosk_device_not_found, kiosk_device_revoked,
  ActivationCode, KioskDevice, KioskDb, activation_code_ttl, validate_code, is_active,
}
use nestova.Kiosk.Codes.{generate_activation_code, normalize_activation_code}
use nestova.Kiosk.Store.{
  create_code, redeem_code, get_by_token_hash, revoke_device, list_by_household,
}

-- HashToken, and the households that there are.
pub record KioskService : Type 0 where
  pub hash_token : List ℕ → List ℕ
  pub has_household : ℕ → Bool

module _ (s : KioskService) where
  abbrev pub new_activation_code : ℕ → List ℕ → ℕ → List ℕ → Time → ActivationCode
  new_activation_code id raw household name now = record {
    id = id;
    household = household;
    code_hash = s.hash_token (normalize_activation_code raw);
    name = trim_space name;
    expires_at = now + activation_code_ttl;
    used_at = none;
  }

  -- The code's text, for the parent to type, and the tables.
  unfoldable pub create_activation_code :
      ℕ → List ℕ → ℕ → List ℕ → Time → KioskDb → Result KioskError (List ℕ × KioskDb)
  create_activation_code id bytes household name now db = do
    let raw = generate_activation_code bytes
    let code = new_activation_code id raw household name now
    validate_code code
    db' ← create_code s.has_household code db
    ok (raw, db')

  unfoldable pub redeem :
      List ℕ → Time → ℕ → List ℕ → Time → KioskDb → Result KioskError (KioskDevice × KioskDb)
  redeem raw_code now device_id raw_token created_at db = do
    let normalized = normalize_activation_code raw_code
    fail_if (is_empty normalized) activation_code_not_found
    redeem_code (s.hash_token normalized) now device_id (s.hash_token raw_token) created_at db

  abbrev pub revoke : ℕ → ℕ → Time → KioskDb → Result KioskError KioskDb
  revoke household id now db = revoke_device household id now db

  unfoldable pub authenticate : List ℕ → KioskDb → Result KioskError KioskDevice
  authenticate raw_token db = do
    fail_if (is_empty (trim_space raw_token)) kiosk_device_not_found
    device ← get_by_token_hash (s.hash_token raw_token) db
    fail_if (not (is_active device)) kiosk_device_revoked
    ok device

-- The first active device of the list.
unfoldable pub active_device : ℕ → KioskDb → Option KioskDevice
active_device household db = find is_active (list_by_household household db)
