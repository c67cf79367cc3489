-- ===== src/Kiosk/Store.antt =====
-- The statements on the kiosk tables: internal/kiosk/adapter/activation_code_postgres.go and
-- postgres.go. Redeem is one transaction that locks the code's row and the household, so calls
-- follow one another; an error leaves the tables as they were.
use nestova.Base.{
  ℕ, Bool, not, ◌&&◌, ◌||◌, List, [], ◌∷◌, none, some, Result, ok, ◌>>=◌, ◌>>◌, fail_if, or_fail,
  leb, ◌==◌, if◌then◌else◌, is_none, any, find, select, update,
}
use nestova.Clock.{Time}
use nestova.Text.{same_bytes}
use nestova.Kiosk.{
  KioskError, activation_code_not_found, activation_code_used, activation_code_expired,
  kiosk_device_not_found, household_not_found, internal_error, ActivationCode, KioskDevice, KioskDb,
  is_active,
}

abbrev pub code_clashes : ActivationCode → ActivationCode → Bool
code_clashes code c = c.id == code.id || same_bytes c.code_hash code.code_hash

-- The household is known to the foreign key, or not.
unfoldable pub create_code : (ℕ → Bool) → ActivationCode → KioskDb → Result KioskError KioskDb
create_code has_household code db = do
  fail_if (any (code_clashes code) db.codes) internal_error
  fail_if (not (has_household code.household)) household_not_found
  ok (record db { codes = code ∷ db.codes })

abbrev pub is_active_of : ℕ → KioskDevice → Bool
is_active_of household d = d.household == household && is_active d

abbrev pub revoked_now : Time → KioskDevice → KioskDevice
revoked_now now d = record d { revoked_at = some now }

unfoldable pub revoke_active_devices : ℕ → Time → List KioskDevice → List KioskDevice
revoke_active_devices household now devices =
    update (is_active_of household) (revoked_now now) devices

-- The primary key, the unique token hash, and the one active device of a household.
abbrev pub device_clashes : KioskDevice → KioskDevice → Bool
device_clashes device d =
    d.id == device.id
    || same_bytes d.token_hash device.token_hash
    || is_active_of device.household d && is_active device

unfoldable pub insert_kiosk_device :
    KioskDevice → List KioskDevice → Result KioskError (List KioskDevice)
insert_kiosk_device device devices = do
  fail_if (any (device_clashes device) devices) internal_error
  ok (device ∷ devices)

abbrev pub has_hash : List ℕ → ActivationCode → Bool
has_hash code_hash c = same_bytes c.code_hash code_hash

abbrev pub used_now : Time → ActivationCode → ActivationCode
used_now now c = record c { used_at = some now }

abbrev pub minted : ActivationCode → ℕ → List ℕ → Time → KioskDevice
minted code device_id token_hash created_at = record {
  id = device_id;
  household = code.household;
  token_hash = token_hash;
  name = code.name;
  created_at = created_at;
  revoked_at = none;
}

-- The new device, and the tables with it. Its time of creation is the database's.
unfoldable pub redeem_code :
    List ℕ → Time → ℕ → List ℕ → Time → KioskDb → Result KioskError (KioskDevice × KioskDb)
redeem_code code_hash now device_id token_hash created_at db = do
  code ← or_fail (find (has_hash code_hash) db.codes) activation_code_not_found
  fail_if (not (is_none code.used_at)) activation_code_used
  fail_if (leb code.expires_at now) activation_code_expired
  let device = minted code device_id token_hash created_at
  devices ← insert_kiosk_device device (revoke_active_devices code.household now db.devices)
  ok (
    device,
    record { codes = update (λ c. c.id == code.id) (used_now now) db.codes; devices = devices },
  )

abbrev pub has_token : List ℕ → KioskDevice → Bool
has_token token_hash d = same_bytes d.token_hash token_hash

unfoldable pub get_by_token_hash : List ℕ → KioskDb → Result KioskError KioskDevice
get_by_token_hash token_hash db =
    or_fail (find (has_token token_hash) db.devices) kiosk_device_not_found

abbrev pub is_revocable : ℕ → ℕ → KioskDevice → Bool
is_revocable household id d = d.id == id && is_active_of household d

unfoldable pub revoke_device : ℕ → ℕ → Time → KioskDb → Result KioskError KioskDb
revoke_device household id now db = do
  fail_if (not (any (is_revocable household id) db.devices)) kiosk_device_not_found
  ok (record db { devices = update (is_revocable household id) (revoked_now now) db.devices })

-- ORDER BY created_at DESC
unfoldable pub insert_newest_first : KioskDevice → List KioskDevice → List KioskDevice
insert_newest_first d [] = d ∷ []
insert_newest_first d (e ∷ devices) =
    let rest = insert_newest_first d devices in
    if leb e.created_at d.created_at then d ∷ e ∷ devices else e ∷ rest

unfoldable pub newest_first : List KioskDevice → List KioskDevice
newest_first [] = []
newest_first (d ∷ devices) = insert_newest_first d (newest_first devices)

unfoldable pub list_by_household : ℕ → KioskDb → List KioskDevice
list_by_household household db = newest_first (select (λ d. d.household == household) db.devices)
