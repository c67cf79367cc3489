-- ===== src/Kiosk/Service/Redeemed.antt =====
-- The tables after an activation code is redeemed: internal/kiosk/adapter/activation_code_postgres.go
-- and internal/kiosk/app/kiosk_service.go.
use nestova.Base.{
  ℕ, ◌<◌, ◌≡◌, refl, sym, subst, ◌∙◌, Bool, true, false, not, ◌||◌, List, [], ◌∷◌, none, some, ok,
  err, or_fail, or_fail-ok, guard-ok, bind-ok, ok_inj, leb, ◌==◌, if◌then◌else◌, any, find, select,
  update, arith, Bool-cases, inl, inr, test_of_eq, find-test, not_any, find-update, not-false,
}
use nestova.Clock.{Time}
use nestova.Text.{is_empty, same_bytes, same_bytes_refl, eq_of_bytes, trim_space}
use nestova.Kiosk.{
  kiosk_device_not_found, kiosk_device_revoked, ActivationCode, KioskDevice, KioskDb, is_active,
}
use nestova.Kiosk.Store.{
  is_active_of, revoked_now, revoke_active_devices, device_clashes, insert_kiosk_device, has_hash,
  used_now, minted, redeem_code, has_token, get_by_token_hash, insert_newest_first, newest_first,
  list_by_household,
}
use nestova.Kiosk.Service.{KioskService, authenticate, active_device}

-- A device that has the identifier or the token hash.
abbrev pub is_taken : ℕ → List ℕ → KioskDevice → Bool
is_taken id token_hash d = d.id == id || same_bytes d.token_hash token_hash

-- The tables after a redemption.
abbrev pub redeemed : ActivationCode → Time → KioskDevice → KioskDb → KioskDb
redeemed code now device db = record {
  codes = update (λ c. c.id == code.id) (used_now now) db.codes;
  devices = device ∷ revoke_active_devices code.household now db.devices;
}

no_clash :
    (device : KioskDevice) (now : Time) (devices : List KioskDevice)
    → any (is_taken device.id device.token_hash) devices ≡ false
    → any (device_clashes device) (revoke_active_devices device.household now devices) ≡ false
unfolding any update revoke_active_devices
no_clash device now [] h = refl
no_clash device now (d ∷ devices) h =
    let ih : any (is_taken device.id device.token_hash) devices ≡ false
        → any (device_clashes device) (revoke_active_devices device.household now devices) ≡ false =
      no_clash device now devices in
    elim (Bool-cases (is_active_of device.household d)) [
      | inl a ↦ rw a (ground (arith, h, ih))
      | inr a ↦ rw (a, a) (ground (arith, h, ih, a))
    ]

-- A usable code and a new device: the redemption succeeds.
pub redeem_code-usable :
    (hash : List ℕ) (now device_id : ℕ) (token_hash : List ℕ) (created_at : Time)
    (code : ActivationCode) (db : KioskDb)
    → find (has_hash hash) db.codes ≡ some code
    → code.used_at ≡ none
    → now < code.expires_at
    → any (is_taken device_id token_hash) db.devices ≡ false
    → let device = minted code device_id token_hash created_at in
      redeem_code hash now device_id token_hash created_at db
      ≡ ok (device, redeemed code now device db)
unfolding redeem_code insert_kiosk_device
redeem_code-usable hash now device_id token_hash created_at code db found unused early new =
    let device = minted code device_id token_hash created_at in
    let open_now : leb code.expires_at now ≡ false = ground (arith, early) in
    rw (found, unused, open_now, no_clash device now db.devices new) refl

-- Nothing active is left of the household.
revoked_lem :
    (household : ℕ) (now : Time) (devices : List KioskDevice)
    → any is_active
        (select (λ d. d.household == household) (revoke_active_devices household now devices))
      ≡ false
unfolding any update select revoke_active_devices
revoked_lem household now [] = refl
revoked_lem household now (d ∷ devices) =
    let ih = revoked_lem household now devices in
    elim (Bool-cases (d.household == household)) [
      | inl own ↦ elim (Bool-cases (is_active d)) [
        | inl a ↦ rw (own, a) (rw own ih)
        | inr a ↦ rw (own, a) (rw own (rw a ih))
      ]
      | inr other ↦ rw other (rw other ih)
    ]

any-insert_newest :
    (d : KioskDevice) (devices : List KioskDevice)
    → is_active d ≡ false
    → any is_active devices ≡ false
    → any is_active (insert_newest_first d devices) ≡ false
unfolding any insert_newest_first
any-insert_newest d [] a h = ground (arith, a)
any-insert_newest d (e ∷ devices) a h = ground (
  arith,
  a,
  h,
  Bool-cases (is_active e),
  Bool-cases (leb e.created_at d.created_at),
  any-insert_newest d devices a,
)

any-newest_first :
    (devices : List KioskDevice)
    → any is_active devices ≡ false
    → any is_active (newest_first devices) ≡ false
unfolding any newest_first
any-newest_first [] h = refl
any-newest_first (d ∷ devices) h =
    any-insert_newest d (newest_first devices) (ground (arith, h, Bool-cases (is_active d)))
      (any-newest_first devices (ground (arith, h, Bool-cases (is_active d))))

find-insert_newest :
    (d : KioskDevice) (devices : List KioskDevice)
    → is_active d ≡ true
    → any is_active devices ≡ false
    → find is_active (insert_newest_first d devices) ≡ some d
unfolding any find insert_newest_first
find-insert_newest d [] a h = ground (arith, a)
find-insert_newest d (e ∷ devices) a h = ground (
  arith,
  a,
  h,
  Bool-cases (is_active e),
  Bool-cases (leb e.created_at d.created_at),
  find-insert_newest d devices a,
)

-- The settings page shows the new device.
pub active_device-redeemed :
    (code : ActivationCode) (now device_id : ℕ) (token_hash : List ℕ) (created_at : Time)
    (db : KioskDb)
    → let device = minted code device_id token_hash created_at in
      active_device code.household (redeemed code now device db) ≡ some device
unfolding active_device list_by_household select newest_first
active_device-redeemed code now device_id token_hash created_at db =
    let rest =
      select (λ d. d.household == code.household)
        (revoke_active_devices code.household now db.devices) in
    rw (test_of_eq code.household) (
      find-insert_newest (minted code device_id token_hash created_at) (newest_first rest) refl
        (any-newest_first rest (revoked_lem code.household now db.devices)))

abbrev pub is_in : ℕ → KioskDevice → Bool
is_in household d = d.household == household

module _ (s : KioskService) where
  pub authenticate-ok :
      (token : List ℕ) (db : KioskDb) (d : KioskDevice)
      → authenticate s token db ≡ ok d
      → (is_empty (trim_space token) ≡ false)
        × (find (has_token (s.hash_token token)) db.devices ≡ some d)
        × (is_active d ≡ true)
  unfolding authenticate get_by_token_hash
  authenticate-ok token db d h =
      let (solid, h1) = guard-ok (is_empty (trim_space token)) kiosk_device_not_found _ h in
      let (e, found, h2) =
        bind-ok (or_fail (find (has_token (s.hash_token token)) db.devices) kiosk_device_not_found)
          _ h1 in
      let (on, h3) = guard-ok (not (is_active e)) kiosk_device_revoked _ h2 in
      (
        solid,
        subst (λ x. find (has_token (s.hash_token token)) db.devices ≡ some x) (ok_inj h3)
            (or_fail-ok (find (has_token (s.hash_token token)) db.devices) kiosk_device_not_found
              found),
        subst (λ x. is_active x ≡ true) (ok_inj h3) (not-false _ on),
      )

  -- Devices that were accepted before: those of the household are superseded.
  pub authenticate-redeemed :
      (code : ActivationCode) (now device_id : ℕ) (token : List ℕ) (created_at : Time)
      (db : KioskDb)
      → any (is_taken device_id (s.hash_token token)) db.devices ≡ false
      → (t : List ℕ) (d : KioskDevice) → authenticate s t db ≡ ok d
      → authenticate s t
          (redeemed code now (minted code device_id (s.hash_token token) created_at) db)
        ≡ (if is_in code.household d then err kiosk_device_revoked else ok d)
  unfolding authenticate get_by_token_hash revoke_active_devices find
  authenticate-redeemed code now device_id token created_at db new t d h =
      let (solid, found, on) = authenticate-ok t db d h in
      let hash = s.hash_token t in
      let own : same_bytes d.token_hash hash ≡ true = find-test (has_token hash) db.devices found in
      let untaken : is_taken device_id (s.hash_token token) d ≡ false =
        not_any (is_taken device_id (s.hash_token token)) (has_token hash) db.devices new found in
      let other : same_bytes (s.hash_token token) hash ≡ false =
        elim (Bool-cases (same_bytes (s.hash_token token) hash)) [
          | inl clash ↦
              let e : d.token_hash ≡ s.hash_token token =
                eq_of_bytes d.token_hash hash own
                ∙ sym (eq_of_bytes (s.hash_token token) hash clash) in
              absurd (ground (arith, untaken, e, same_bytes_refl (s.hash_token token)))
          | inr fresh ↦ fresh
        ] in
      let moved =
        find-update (has_token hash) (is_active_of code.household) (revoked_now now) db.devices
          (λ x. refl) in
      elim (Bool-cases (is_in code.household d)) [
        | inl inside ↦ rw (solid, other, moved, found, inside, on) refl
        | inr outside ↦ rw (solid, other, moved, found, outside) (rw on refl)
      ]
