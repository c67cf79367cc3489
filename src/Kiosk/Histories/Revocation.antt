-- ===== src/Kiosk/Histories/Revocation.antt =====
-- Devices whose access is revoked: internal/kiosk/app/kiosk_service.go (Authenticate) and
-- internal/kiosk/adapter/postgres.go.
use nestova.Base.{
  ℕ, ◌≡◌, refl, sym, ◌∙◌, subst, Bool, true, false, not, List, ◌∷◌, Option, none, some, ok, err,
  ◌>>=◌, ◌>>◌, fail_if, or_fail, ◌==◌, any, find, update, arith, Bool-cases, inl, inr, find-update,
  find-test, not_any,
}
use nestova.Text.{is_empty, same_bytes_refl, eq_of_bytes, trim_space}
use nestova.Kiosk.{kiosk_device_not_found, kiosk_device_revoked, KioskDevice, KioskDb, is_active}
use nestova.Kiosk.Store.{
  is_active_of, revoked_now, revoke_active_devices, device_clashes, is_revocable, has_token,
  get_by_token_hash,
}
use nestova.Kiosk.Service.{KioskService, authenticate}
use nestova.Kiosk.Histories.{
  KioskCall, run_calls, IsCreated, IsRedeemed, IsDeviceRevoked, run-keeps,
}

-- The first device with the token hash is there, and revoked.
record IsRevoked (hash : List ℕ) (db : KioskDb) : Type 0 where
  device : KioskDevice
  found : find (has_token hash) db.devices ≡ some device
  off : is_active device ≡ false

module _ (hash : List ℕ) where
  -- Revoking active devices leaves it revoked.
  update_revoked :
      (p : KioskDevice → Bool) (now : ℕ) (devices : List KioskDevice) (d : KioskDevice)
      → ((x : KioskDevice) → p x ≡ true → is_active x ≡ true)
      → find (has_token hash) devices ≡ some d
      → is_active d ≡ false
      → find (has_token hash) (update p (revoked_now now) devices) ≡ some d
  update_revoked p now devices d only found off =
      let moved = find-update (has_token hash) p (revoked_now now) devices (λ x. refl) in
      elim (Bool-cases (p d)) [
        | inl t ↦ absurd (ground (arith, only d t, off))
        | inr t ↦ rw (moved, found) (rw t refl)
      ]

  -- A new device that clashes with none has another token hash.
  insert_revoked :
      (new : KioskDevice) (devices : List KioskDevice) (d : KioskDevice)
      → any (device_clashes new) devices ≡ false
      → find (has_token hash) devices ≡ some d
      → find (has_token hash) (new ∷ devices) ≡ some d
  unfolding find
  insert_revoked new devices d free found = elim (Bool-cases (has_token hash new)) [
    | inr other ↦ rw other found
    | inl same ↦
        let e : d.token_hash ≡ new.token_hash =
          eq_of_bytes d.token_hash hash (find-test (has_token hash) devices found)
          ∙ sym (eq_of_bytes new.token_hash hash same) in
        let clash = not_any (device_clashes new) (has_token hash) devices free found in
        absurd
          (ground (arith, clash, e, same_bytes_refl new.token_hash, Bool-cases (d.id == new.id)))
  ]

  created-IsRevoked : (db db' : KioskDb) → IsCreated db db' → IsRevoked hash db → IsRevoked hash db'
  created-IsRevoked db db' c r =
      subst (IsRevoked hash) (sym c.made)
        (record { device = r.device; found = r.found; off = r.off })

  redeemed-IsRevoked :
      (s : KioskService) (text : List ℕ) (db db' : KioskDb)
      → IsRedeemed s text db db'
      → IsRevoked hash db
      → IsRevoked hash db'
  unfolding revoke_active_devices
  redeemed-IsRevoked s text db db' c r =
      let left = revoke_active_devices c.code.household c.now db.devices in
      let found : find (has_token hash) left ≡ some r.device =
        update_revoked (is_active_of c.code.household) c.now db.devices r.device
          (λ x t. ground (arith, t)) r.found r.off in
      subst (IsRevoked hash) (sym c.made) (record {
        device = r.device;
        found = insert_revoked c.device left r.device c.free found;
        off = r.off;
      })

  device-IsRevoked :
      (db db' : KioskDb) → IsDeviceRevoked db db' → IsRevoked hash db → IsRevoked hash db'
  device-IsRevoked db db' c r = subst (IsRevoked hash) (sym c.made) (record {
    device = r.device;
    found =
        update_revoked (is_revocable c.household c.id) c.now db.devices r.device
          (λ x t. ground (arith, t)) r.found r.off;
    off = r.off;
  })

refused-IsRevoked :
    (s : KioskService) (token : List ℕ) (db : KioskDb)
    → authenticate s token db ≡ err kiosk_device_revoked
    → (is_empty (trim_space token) ≡ false) × IsRevoked (s.hash_token token) db
unfolding authenticate get_by_token_hash
refused-IsRevoked s token db =
    result (is_empty (trim_space token)) (find (has_token (s.hash_token token)) db.devices) refl
      refl
  where
    result :
        (b : Bool) (o : Option KioskDevice)
        → is_empty (trim_space token) ≡ b
        → find (has_token (s.hash_token token)) db.devices ≡ o
        → (fail_if b kiosk_device_not_found
            >> (or_fail o kiosk_device_not_found >>= λ d.
                fail_if (not (is_active d)) kiosk_device_revoked >> ok d))
          ≡ err kiosk_device_revoked
        → (is_empty (trim_space token) ≡ false) × IsRevoked (s.hash_token token) db
    result true o p q h = absurd (cc)
    result false none p q h = absurd (cc)
    result false (some d) p q h = elim (Bool-cases (is_active d)) [
      | inl on ↦ absurd (ground (arith, on, h))
      | inr off ↦ (p, record { device = d; found = q; off = off })
    ]

-- A token that is refused since its device is revoked is refused so for good: after any calls that
-- create, redeem and revoke it is refused in the same way.
pub run_calls_revoked :
    (s : KioskService) (token : List ℕ) (db : KioskDb)
    → authenticate s token db ≡ err kiosk_device_revoked
    → (calls : List KioskCall)
    → authenticate s token (run_calls s calls db) ≡ err kiosk_device_revoked
unfolding authenticate get_by_token_hash
run_calls_revoked s token db h calls =
    let hash = s.hash_token token in
    let (solid, before) = refused-IsRevoked s token db h in
    let after =
      run-keeps (IsRevoked hash) s (created-IsRevoked hash) (redeemed-IsRevoked hash s)
        (device-IsRevoked hash) calls db before in
    rw (solid, after.found) (rw after.off refl)
