-- ===== src/Kiosk/Service/Provisioning.antt =====
-- Provisioning a kiosk, from the code that is made on the settings page to the device that presents
-- its token: internal/kiosk/app/kiosk_service.go.
use nestova.Base.{
  ℕ, ◌+◌, ◌<◌, ◌≡◌, refl, sym, ap, ◌∙◌, subst, false, not, List, [], ◌∷◌, map, some, ok, err,
  guard-ok, bind-ok, then-ok, ok_inj, if◌then◌else◌, length, any, find, update, arith, test_of_eq,
}
use nestova.Clock.{Time}
use nestova.Text.{is_empty, same_bytes_refl, trim_space}
use nestova.Kiosk.{
  activation_code_used, household_not_found, internal_error, kiosk_device_revoked, ActivationCode,
  KioskDevice, KioskDb, activation_code_ttl, validate_code,
}
use nestova.Kiosk.Codes.{symbol, generate_activation_code}
use nestova.Kiosk.Codes.Typed.{TypedAs, normalize-typed, normalize-generate}
use nestova.Kiosk.Store.{
  code_clashes, create_code, has_hash, minted, redeem_code, get_by_token_hash,
}
use nestova.Kiosk.Service.{
  KioskService, new_activation_code, create_activation_code, redeem, authenticate, active_device,
}
use nestova.Kiosk.Service.Redeemed.{
  is_taken, redeemed, is_in, redeem_code-usable, active_device-redeemed, authenticate-redeemed,
}

map_solid : (bytes : List ℕ) → 0 < length bytes → is_empty (map symbol bytes) ≡ false
map_solid [] h = absurd (omega arith)
map_solid (v ∷ bytes) h = refl

module _ (s : KioskService) where
  -- The code of a creation that succeeds is the first of the table.
  created :
      (id : ℕ) (bytes : List ℕ) (household : ℕ) (name : List ℕ) (now : Time) (db db' : KioskDb)
      (raw : List ℕ)
      → create_activation_code s id bytes household name now db ≡ ok (raw, db')
      → (raw ≡ generate_activation_code bytes)
        × (db' ≡ record db {
          codes =
              new_activation_code s id (generate_activation_code bytes) household name now
              ∷ db.codes;
        })
  unfolding create_activation_code create_code
  created id bytes household name now db db' raw h =
      let code = new_activation_code s id (generate_activation_code bytes) household name now in
      let (valid, h1) = then-ok (validate_code code) _ h in
      let (db1, made, h2) = bind-ok (create_code s.has_household code db) _ h1 in
      let (free, h3) = guard-ok (any (code_clashes code) db.codes) internal_error _ made in
      let (known, h4) = guard-ok (not (s.has_household household)) household_not_found _ h3 in
      let pair = ok_inj h2 in (sym (ap (λ p. p.0) pair), sym (ok_inj h4 ∙ ap (λ p. p.1) pair))

  -- What redeeming a code comes to: the new device is accepted and shown, the household's other
  -- devices are superseded and all others left alone, and the code is spent.
  pub record IsProvisioned (household : ℕ) (name bytes token : List ℕ) (before after : KioskDb)
      (device : KioskDevice) : Type 0 where
    of_household : device.household ≡ household
    named : device.name ≡ trim_space name
    accepted : authenticate s token after ≡ ok device
    shown : active_device household after ≡ some device
    others :
        (t : List ℕ) (d : KioskDevice)
        → authenticate s t before ≡ ok d
        → authenticate s t after ≡ (if is_in household d then err kiosk_device_revoked else ok d)
    spent :
        (text : List ℕ) (now id : ℕ) (t : List ℕ) (created_at : Time)
        → TypedAs text (map symbol bytes)
        → redeem s text now id t created_at after ≡ err activation_code_used

  spent_code :
      (id : ℕ) (bytes : List ℕ) (household : ℕ) (name : List ℕ) (now : Time)
      (codes : List ActivationCode) (devices : List KioskDevice) (device : KioskDevice)
      (used : Time)
      → 0 < length bytes
      → (text : List ℕ) (later device_id : ℕ) (t : List ℕ) (created_at : Time)
      → TypedAs text (map symbol bytes)
      → let code = new_activation_code s id (generate_activation_code bytes) household name now in
        redeem s text later device_id t created_at
          (redeemed code used device (record { codes = code ∷ codes; devices = devices }))
        ≡ err activation_code_used
  unfolding redeem redeem_code find update
  spent_code id bytes household name now codes devices device used some_bytes text later device_id t
        created_at typed =
      rw
        (
          normalize-typed bytes text typed,
          map_solid bytes some_bytes,
          normalize-generate bytes,
          test_of_eq id,
          same_bytes_refl (s.hash_token (map symbol bytes)),
        )
        refl

  redeem_new :
      (id : ℕ) (bytes : List ℕ) (household : ℕ) (name : List ℕ) (now : Time) (db : KioskDb)
      → 0 < length bytes
      → (text : List ℕ) → TypedAs text (map symbol bytes)
      → (later device_id : ℕ) (token : List ℕ) (created_at : Time)
      → later < now + activation_code_ttl
      → any (is_taken device_id (s.hash_token token)) db.devices ≡ false
      → let code = new_activation_code s id (generate_activation_code bytes) household name now in
        let db1 = record db { codes = code ∷ db.codes } in
        let device = minted code device_id (s.hash_token token) created_at in
        redeem s text later device_id token created_at db1
        ≡ ok (device, redeemed code later device db1)
  unfolding redeem
  redeem_new id bytes household name now db some_bytes text typed later device_id token created_at
        early new =
      let code = new_activation_code s id (generate_activation_code bytes) household name now in
      let hash = s.hash_token (map symbol bytes) in
      let found : find (has_hash hash) (code ∷ db.codes) ≡ some code =
        unfold find in rw (normalize-generate bytes, same_bytes_refl hash) refl in
      rw (normalize-typed bytes text typed, map_solid bytes some_bytes)
        (redeem_code-usable hash later device_id (s.hash_token token) created_at code
          (record db { codes = code ∷ db.codes }) found refl early new)

  accepts_minted :
      (code : ActivationCode) (now device_id : ℕ) (token : List ℕ) (created_at : Time)
      (db : KioskDb)
      → is_empty (trim_space token) ≡ false
      → let device = minted code device_id (s.hash_token token) created_at in
        authenticate s token (redeemed code now device db) ≡ ok device
  unfolding authenticate get_by_token_hash find
  accepts_minted code now device_id token created_at db solid =
      rw (solid, same_bytes_refl (s.hash_token token)) refl

  -- A code that was made for a household provisions a device, however it is typed, if it is redeemed
  -- within fifteen minutes: the redemption succeeds, with a token and an identifier that no device
  -- has. The device has the household and the name of the code, and its token is accepted. The devices of the
  -- household that were accepted before are revoked by it, those of other households stay accepted,
  -- and the code cannot be redeemed again.
  pub create-redeem :
      (id : ℕ) (bytes : List ℕ) (household : ℕ) (name : List ℕ) (now : Time) (db db' : KioskDb)
      (raw : List ℕ)
      → create_activation_code s id bytes household name now db ≡ ok (raw, db')
      → 0 < length bytes
      → (text : List ℕ) → TypedAs text (map symbol bytes)
      → (later device_id : ℕ) (token : List ℕ) (created_at : Time)
      → later < now + activation_code_ttl
      → any (is_taken device_id (s.hash_token token)) db.devices ≡ false
      → is_empty (trim_space token) ≡ false
      → (device : KioskDevice) × (after : KioskDb) × (redeem s text later device_id token created_at
            db'
          ≡ ok (device, after))
        × IsProvisioned household name bytes token db' after device
  create-redeem id bytes household name now db db' raw made some_bytes text typed later device_id
        token created_at early new solid =
      let code = new_activation_code s id (generate_activation_code bytes) household name now in
      let db1 = record db { codes = code ∷ db.codes } in
      let device = minted code device_id (s.hash_token token) created_at in
      let after = redeemed code later device db1 in
      let (raw_lem, made_db) = created id bytes household name now db db' raw made in
      let (done, facts) =
        subst
          (λ x.
            (redeem s text later device_id token created_at x ≡ ok (device, after))
            × IsProvisioned household name bytes token x after device)
          (sym made_db)
          (
            redeem_new id bytes household name now db some_bytes text typed later device_id token
                created_at early new,
            record {
              of_household = refl;
              named = refl;
              accepted = accepts_minted code later device_id token created_at db1 solid;
              shown =
                  active_device-redeemed code later device_id (s.hash_token token) created_at db1;
              others = authenticate-redeemed s code later device_id token created_at db1 new;
              spent =
                  spent_code id bytes household name now db.codes db.devices device later
                    some_bytes;
            },
          ) in
      (device, after, done, facts)
