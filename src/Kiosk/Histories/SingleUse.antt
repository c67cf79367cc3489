-- ===== src/Kiosk/Histories/SingleUse.antt =====
-- How often one activation code is redeemed: internal/kiosk/adapter/activation_code_postgres.go.
use nestova.Base.{
  ℕ, ◌+◌, ◌≤◌, ◌≡◌, refl, Bool, true, false, ◌&&◌, List, [], ◌∷◌, some, Result, ok, err, ◌==◌,
  if◌then◌else◌, is_none, find, subst, sym, ap, ◌∙◌, ◌⊎◌, arith, Bool-cases, inl, inr, find-update,
  test_of_eq, find-test, not_any,
}
use nestova.Text.{same_bytes, eq_of_bytes, same_bytes_refl}
use nestova.Kiosk.{KioskError, ActivationCode, KioskDevice, KioskDb}
use nestova.Kiosk.Codes.{normalize_activation_code}
use nestova.Kiosk.Store.{code_clashes, has_hash, used_now}
use nestova.Kiosk.Service.{KioskService, redeem}
use nestova.Kiosk.Histories.{
  KioskCall, step_call, IsCreated, IsRedeemed, IsDeviceRevoked, second_or, redeem-IsRedeemed,
  step-keeps,
}

abbrev is_ok {ℓ} : {A : Type ℓ} → Result KioskError A → Bool
is_ok (ok a) = true
is_ok (err e) = false

-- Whether a call redeems the code with a hash.
unfoldable pub redeems_code : KioskService → List ℕ → KioskCall → KioskDb → Bool
redeems_code s hash (KioskCall.redeeming text now id token created_at) db =
    same_bytes (s.hash_token (normalize_activation_code text)) hash
    && is_ok (redeem s text now id token created_at db)
redeems_code s hash call db = false

unfoldable pub redemption_count : KioskService → List ℕ → List KioskCall → KioskDb → ℕ
redemption_count s hash [] db = 0
redemption_count s hash (call ∷ calls) db =
    let later = redemption_count s hash calls (step_call s call db) in
    if redeems_code s hash call db then later + 1 else later

-- The code with a hash is in the table, and used.
record IsSpent (hash : List ℕ) (db : KioskDb) : Type 0 where
  code : ActivationCode
  found : find (has_hash hash) db.codes ≡ some code
  used : is_none code.used_at ≡ false

some_inj : {c d : ActivationCode} → some c ≡ some d → c ≡ d
some_inj h = cc

module _ (s : KioskService) (hash : List ℕ) where
  create-IsSpent : (db db' : KioskDb) → IsCreated db db' → IsSpent hash db → IsSpent hash db'
  unfolding find
  create-IsSpent db db' created spent =
      let new : has_hash hash created.code ≡ false =
        fresh (Bool-cases (has_hash hash created.code)) in
      subst (IsSpent hash) (sym created.made)
        (record { code = spent.code; found = rw new spent.found; used = spent.used })
    where
      fresh :
          (has_hash hash created.code ≡ true) ⊎ (has_hash hash created.code ≡ false)
          → has_hash hash created.code ≡ false
      fresh (inr other) = other
      fresh (inl same) =
          let old : same_bytes spent.code.code_hash hash ≡ true =
            find-test (has_hash hash) db.codes spent.found in
          let clash : code_clashes created.code spent.code ≡ false =
            not_any (code_clashes created.code) (has_hash hash) db.codes created.free spent.found in
          let e : spent.code.code_hash ≡ created.code.code_hash =
            eq_of_bytes spent.code.code_hash hash old
            ∙ sym (eq_of_bytes created.code.code_hash hash same) in
          absurd (ground (arith, clash, e, same_bytes_refl created.code.code_hash))

  -- A redemption marks a code, and spends none anew that was used.
  redeem-IsSpent :
      (text : List ℕ) (db db' : KioskDb)
      → IsRedeemed s text db db'
      → IsSpent hash db
      → IsSpent hash db'
  redeem-IsSpent text db db' r spent =
      let moved =
        find-update (has_hash hash) (λ c. c.id == r.code.id) (used_now r.now) db.codes
          (λ c. refl) in
      subst (IsSpent hash) (sym r.made) (elim (Bool-cases (spent.code.id == r.code.id)) [
        | inl same ↦ record {
          code = used_now r.now spent.code;
          found = rw (moved, spent.found) (rw same refl);
          used = refl;
        }
        | inr other ↦ record {
          code = spent.code;
          found = rw (moved, spent.found) (rw other refl);
          used = spent.used;
        }
      ])

  redeemed-IsSpent :
      (text : List ℕ) (db db' : KioskDb)
      → s.hash_token (normalize_activation_code text) ≡ hash
      → IsRedeemed s text db db'
      → IsSpent hash db'
  redeemed-IsSpent text db db' e r =
      let found : find (has_hash hash) db.codes ≡ some r.code =
        subst (λ k. find (has_hash k) db.codes ≡ some r.code) e r.found in
      let moved =
        find-update (has_hash hash) (λ c. c.id == r.code.id) (used_now r.now) db.codes
          (λ c. refl) in
      subst (IsSpent hash) (sym r.made) (record {
        code = used_now r.now r.code;
        found = rw (moved, found) (rw (test_of_eq r.code.id) refl);
        used = refl;
      })

  -- A spent code is not redeemed.
  spent_fails :
      (call : KioskCall) (db : KioskDb) → IsSpent hash db → redeems_code s hash call db ≡ false
  unfolding redeems_code
  spent_fails (KioskCall.creating id bytes household name now) db spent = refl
  spent_fails (KioskCall.revoking household id now) db spent = refl
  spent_fails (KioskCall.redeeming text now id token created_at) db spent =
      result (redeem s text now id token created_at db) refl
    where
      result :
          (r : Result KioskError (KioskDevice × KioskDb))
          → redeem s text now id token created_at db ≡ r
          → (same_bytes (s.hash_token (normalize_activation_code text)) hash && is_ok r) ≡ false
      result (err e) p = ground arith
      result (ok made) p =
          let r = redeem-IsRedeemed s text now id token created_at db made p in
          elim (Bool-cases (same_bytes (s.hash_token (normalize_activation_code text)) hash)) [
            | inr other ↦ rw other refl
            | inl same ↦
                let found =
                  subst (λ k. find (has_hash k) db.codes ≡ some r.code)
                    (eq_of_bytes (s.hash_token (normalize_activation_code text)) hash same)
                    r.found in
                let e : r.code ≡ spent.code = some_inj (sym found ∙ spent.found) in
                absurd (ground (arith, ap (λ c. is_none c.used_at) e, r.unused, spent.used))
          ]

  spent_none :
      (calls : List KioskCall) (db : KioskDb)
      → IsSpent hash db
      → redemption_count s hash calls db ≡ 0
  unfolding redemption_count
  spent_none [] db spent = refl
  spent_none (call ∷ calls) db spent = rw (spent_fails call db spent) (
      spent_none calls (step_call s call db)
        (step-keeps (IsSpent hash) s create-IsSpent redeem-IsSpent kept call db spent))
    where
      kept : (db db' : KioskDb) → IsDeviceRevoked db db' → IsSpent hash db → IsSpent hash db'
      kept db db' r spent =
          subst (IsSpent hash) (sym r.made)
            (record { code = spent.code; found = spent.found; used = spent.used })

  -- A redemption leaves the code spent.
  spends :
      (call : KioskCall) (db : KioskDb)
      → redeems_code s hash call db ≡ true
      → IsSpent hash (step_call s call db)
  unfolding redeems_code step_call
  spends (KioskCall.creating id bytes household name now) db t = absurd (cc)
  spends (KioskCall.revoking household id now) db t = absurd (cc)
  spends (KioskCall.redeeming text now id token created_at) db t =
      result (redeem s text now id token created_at db) refl t
    where
      result :
          (r : Result KioskError (KioskDevice × KioskDb))
          → redeem s text now id token created_at db ≡ r
          → (same_bytes (s.hash_token (normalize_activation_code text)) hash && is_ok r) ≡ true
          → IsSpent hash (second_or db r)
      result (err e) p t = absurd (ground (arith, t))
      result (ok made) p t =
          redeemed-IsSpent text db made.1
            (eq_of_bytes (s.hash_token (normalize_activation_code text)) hash (ground (arith, t)))
            (redeem-IsRedeemed s text now id token created_at db made p)

  -- In any sequence of calls that create, redeem and revoke, from any tables, one activation code is
  -- redeemed at most once.
  pub redemptions_once :
      (calls : List KioskCall) (db : KioskDb) → redemption_count s hash calls db ≤ 1
  unfolding redemption_count
  redemptions_once [] db = omega arith
  redemptions_once (call ∷ calls) db = elim (Bool-cases (redeems_code s hash call db)) [
    | inl t ↦ rw t (omega (arith, spent_none calls (step_call s call db) (spends call db t)))
    | inr t ↦ rw t (redemptions_once calls (step_call s call db))
  ]
