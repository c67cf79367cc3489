-- ===== src/Kiosk/Histories.antt =====
-- Calls of internal/kiosk/app/kiosk_service.go that follow one another, and what one of them that
-- succeeds has done.
pub mod SingleUse
pub mod Revocation
use nestova.Base.{
  ℕ, ◌+◌, ◌≡◌, refl, Bool, true, false, not, ◌&&◌, List, [], ◌∷◌, Option, none, some, Result, ok,
  err, ◌>>=◌, ◌>>◌, fail_if, or_fail, guard-ok, bind-ok, then-ok, or_fail-ok, not-false, ok_inj,
  leb, ◌==◌, if◌then◌else◌, is_none, any, find, update, subst, sym, ap, ◌∙◌,
}
use nestova.Clock.{Time}
use nestova.Text.{is_empty}
use nestova.Kiosk.{
  KioskError, activation_code_not_found, activation_code_used, activation_code_expired,
  internal_error, household_not_found, kiosk_device_not_found, ActivationCode, KioskDevice, KioskDb,
  validate_code,
}
use nestova.Kiosk.Codes.{normalize_activation_code, generate_activation_code}
use nestova.Kiosk.Store.{
  code_clashes, create_code, has_hash, used_now, minted, device_clashes, revoke_active_devices,
  insert_kiosk_device, redeem_code, is_revocable, revoked_now, revoke_device,
}
use nestova.Kiosk.Service.{
  KioskService, new_activation_code, create_activation_code, redeem, revoke,
}
use nestova.Kiosk.Service.Redeemed.{redeemed}

pub data KioskCall : Type 0 where
  creating : ℕ → List ℕ → ℕ → List ℕ → Time → KioskCall
  redeeming : List ℕ → Time → ℕ → List ℕ → Time → KioskCall
  revoking : ℕ → ℕ → Time → KioskCall

-- A call that fails leaves the tables as they were.
abbrev pub second_or {ℓ} : {A : Type ℓ} → KioskDb → Result KioskError (A × KioskDb) → KioskDb
second_or db (ok (a, db')) = db'
second_or db (err e) = db

abbrev pub value_or : KioskDb → Result KioskError KioskDb → KioskDb
value_or db (ok db') = db'
value_or db (err e) = db

unfoldable pub step_call : KioskService → KioskCall → KioskDb → KioskDb
step_call s (KioskCall.creating id bytes household name now) db =
    second_or db (create_activation_code s id bytes household name now db)
step_call s (KioskCall.redeeming text now id token created_at) db =
    second_or db (redeem s text now id token created_at db)
step_call s (KioskCall.revoking household id now) db = value_or db (revoke s household id now db)

unfoldable pub run_calls : KioskService → List KioskCall → KioskDb → KioskDb
run_calls s [] db = db
run_calls s (call ∷ calls) db = run_calls s calls (step_call s call db)

-- What a call that succeeds has done to the tables.
pub record IsCreated (before after : KioskDb) : Type 0 where
  pub code : ActivationCode
  pub free : any (code_clashes code) before.codes ≡ false
  pub made : after ≡ record before { codes = code ∷ before.codes }

pub record IsRedeemed (s : KioskService) (text : List ℕ) (before after : KioskDb) : Type 0 where
  pub code : ActivationCode
  pub now : Time
  pub device : KioskDevice
  pub found :
      find (has_hash (s.hash_token (normalize_activation_code text))) before.codes ≡ some code
  pub unused : is_none code.used_at ≡ true
  pub of_household : device.household ≡ code.household
  pub free :
      any (device_clashes device) (revoke_active_devices code.household now before.devices) ≡ false
  pub made : after ≡ redeemed code now device before

pub record IsDeviceRevoked (before after : KioskDb) : Type 0 where
  pub household : ℕ
  pub id : ℕ
  pub now : Time
  pub made : after ≡ record before {
    devices = update (is_revocable household id) (revoked_now now) before.devices;
  }

module _ (s : KioskService) where
  pub create-IsCreated :
      (id : ℕ) (bytes : List ℕ) (household : ℕ) (name : List ℕ) (now : Time) (db : KioskDb)
      (made : List ℕ × KioskDb)
      → create_activation_code s id bytes household name now db ≡ ok made
      → IsCreated db made.1
  unfolding create_activation_code create_code
  create-IsCreated id bytes household name now db made h =
      let code = new_activation_code s id (generate_activation_code bytes) household name now in
      let (valid, h1) = then-ok (validate_code code) _ h in
      let (db1, stored, h2) = bind-ok (create_code s.has_household code db) _ h1 in
      let (free, h3) = guard-ok (any (code_clashes code) db.codes) internal_error _ stored in
      let (known, h4) = guard-ok (not (s.has_household household)) household_not_found _ h3 in
      record { code = code; free = free; made = sym (ok_inj h4 ∙ ap (λ p. p.1) (ok_inj h2)) }

  pub redeem-IsRedeemed :
      (text : List ℕ) (now id : ℕ) (token : List ℕ) (created_at : Time) (db : KioskDb)
      (made : KioskDevice × KioskDb)
      → redeem s text now id token created_at db ≡ ok made
      → IsRedeemed s text db made.1
  unfolding redeem redeem_code insert_kiosk_device
  redeem-IsRedeemed text now id token created_at db made h =
      let hash = s.hash_token (normalize_activation_code text) in
      let (solid, h1) =
        guard-ok (is_empty (normalize_activation_code text)) activation_code_not_found _ h in
      let (code, found, h2) =
        bind-ok (or_fail (find (has_hash hash) db.codes) activation_code_not_found) _ h1 in
      let (unused, h3) = guard-ok (not (is_none code.used_at)) activation_code_used _ h2 in
      let (early, h4) = guard-ok (leb code.expires_at now) activation_code_expired _ h3 in
      let device = minted code id (s.hash_token token) created_at in
      let left = revoke_active_devices code.household now db.devices in
      let (devices, inserted, h5) = bind-ok (insert_kiosk_device device left) _ h4 in
      let (free, h6) = guard-ok (any (device_clashes device) left) internal_error _ inserted in
      record {
        code = code;
        now = now;
        device = device;
        found = or_fail-ok (find (has_hash hash) db.codes) activation_code_not_found found;
        unused = not-false _ unused;
        of_household = refl;
        free = free;
        made =
            subst
              (λ (ds : List KioskDevice). made.1 ≡ record {
                codes = update (λ c. c.id == code.id) (used_now now) db.codes;
                devices = ds;
              })
              (sym (ok_inj h6)) (sym (ap (λ p. p.1) (ok_inj h5)));
      }

  pub revoke-IsDeviceRevoked :
      (household id now : ℕ) (db db' : KioskDb)
      → revoke s household id now db ≡ ok db'
      → IsDeviceRevoked db db'
  unfolding revoke_device
  revoke-IsDeviceRevoked household id now db db' h =
      let (there, made) =
        guard-ok (not (any (is_revocable household id) db.devices)) kiosk_device_not_found _ h in
      record { household = household; id = id; now = now; made = sym (ok_inj made) }

-- What every call that succeeds keeps, a run keeps.
module _ {ℓ} (P : KioskDb → Type ℓ) (s : KioskService)
    (creates : (db db' : KioskDb) → IsCreated db db' → P db → P db')
    (redeems_code : (text : List ℕ) (db db' : KioskDb) → IsRedeemed s text db db' → P db → P db')
    (revokes : (db db' : KioskDb) → IsDeviceRevoked db db' → P db → P db') where
  pub step-keeps : (call : KioskCall) (db : KioskDb) → P db → P (step_call s call db)
  unfolding step_call
  step-keeps (KioskCall.creating id bytes household name now) db p =
      result (create_activation_code s id bytes household name now db) refl
    where
      result :
          (r : Result KioskError (List ℕ × KioskDb))
          → create_activation_code s id bytes household name now db ≡ r
          → P (second_or db r)
      result (ok made) e =
          creates db made.1 (create-IsCreated s id bytes household name now db made e) p
      result (err e) same = p
  step-keeps (KioskCall.redeeming text now id token created_at) db p =
      result (redeem s text now id token created_at db) refl
    where
      result :
          (r : Result KioskError (KioskDevice × KioskDb))
          → redeem s text now id token created_at db ≡ r
          → P (second_or db r)
      result (ok made) e =
          redeems_code text db made.1 (redeem-IsRedeemed s text now id token created_at db made e) p
      result (err e) same = p
  step-keeps (KioskCall.revoking household id now) db p = result (revoke s household id now db) refl
    where
      result :
          (r : Result KioskError KioskDb) → revoke s household id now db ≡ r → P (value_or db r)
      result (ok db') e = revokes db db' (revoke-IsDeviceRevoked s household id now db db' e) p
      result (err e) same = p

  pub run-keeps : (calls : List KioskCall) (db : KioskDb) → P db → P (run_calls s calls db)
  unfolding run_calls
  run-keeps [] db p = p
  run-keeps (call ∷ calls) db p = run-keeps calls (step_call s call db) (step-keeps call db p)
