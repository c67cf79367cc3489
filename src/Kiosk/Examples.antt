-- ===== src/Kiosk/Examples.antt =====
-- A household with one kiosk, which a second code replaces; the token is its own hash.
use nestova.Base.{
  ℕ, ◌≤◌, ◌≡◌, refl, false, List, [], ◌∷◌, none, some, ok, err, map, any, find, arith, ◌==◌, select,
}
use nestova.Text.{is_empty, is_space, trim_left, trim_right}
use nestova.Kiosk.{kiosk_device_revoked, KioskDevice, KioskDb, validate_code}
use nestova.Kiosk.Codes.{symbol, write_symbols, normalize_activation_code}
use nestova.Kiosk.Codes.Typed.{TypedAs}
use nestova.Kiosk.Store.{create_code, get_by_token_hash}
use nestova.Kiosk.Service.{
  KioskService, new_activation_code, create_activation_code, redeem, authenticate,
}
use nestova.Kiosk.Service.Redeemed.{is_taken}
use nestova.Kiosk.Service.Provisioning.{IsProvisioned, create-redeem}
use nestova.Kiosk.Histories.{KioskCall, run_calls}
use nestova.Kiosk.Histories.SingleUse.{redemption_count, redemptions_once}
use nestova.Kiosk.Histories.Revocation.{run_calls_revoked}

abbrev plain : KioskService
plain = record { hash_token = λ text. text; has_household = λ h. h == 1 }

-- `R0` and eight times `1`
abbrev bytes : List ℕ
bytes = 24 ∷ 0 ∷ 1 ∷ 1 ∷ 1 ∷ 33 ∷ 1 ∷ 1 ∷ 1 ∷ 1 ∷ []

abbrev kitchen : List ℕ
kitchen = 75 ∷ []

abbrev first_device : KioskDevice
first_device = record {
  id = 5;
  household = 1;
  token_hash = 97 ∷ [];
  name = kitchen;
  created_at = 3;
  revoked_at = none;
}

abbrev before : KioskDb
before = record { codes = []; devices = first_device ∷ [] }

abbrev raw_code : List ℕ
raw_code = 82 ∷ 48 ∷ 49 ∷ 49 ∷ 45 ∷ 49 ∷ 49 ∷ 49 ∷ 45 ∷ 49 ∷ 49 ∷ 49 ∷ []

abbrev with_code : KioskDb
with_code = record before { codes = new_activation_code plain 9 raw_code 1 kitchen 100 ∷ [] }

made : create_activation_code plain 9 bytes 1 kitchen 100 before ≡ ok (raw_code, with_code)
unfolding create_activation_code create_code write_symbols symbol validate_code
    normalize_activation_code trim_left trim_right is_space any select
made = refl

-- `ro-l1 1…`
abbrev typed : List ℕ
typed = 114 ∷ 111 ∷ 45 ∷ 108 ∷ 49 ∷ 32 ∷ 49 ∷ 49 ∷ 73 ∷ 49 ∷ 49 ∷ 49 ∷ []

typed-TypedAs : TypedAs typed (map symbol bytes)
unfolding symbol
typed-TypedAs = TypedAs.small {c = 82} refl (
    TypedAs.small_o (
      TypedAs.hyphen (
        TypedAs.small_l (
          TypedAs.same (
            TypedAs.space (
              TypedAs.same (
                TypedAs.same (
                  TypedAs.letter_i
                    (TypedAs.same (TypedAs.same (TypedAs.same TypedAs.nothing)))))))))))

new_token : any (is_taken 6 (98 ∷ [])) before.devices ≡ false
unfolding any
new_token = refl

solid_token : is_empty (trim_right (trim_left (98 ∷ []))) ≡ false
unfolding trim_left trim_right is_space
solid_token = refl

create-redeem_example :
    (device : KioskDevice) × (after : KioskDb) × (redeem plain typed 200 6 (98 ∷ []) 201 with_code
      ≡ ok (device, after))
    × IsProvisioned plain 1 kitchen bytes (98 ∷ []) with_code after device
create-redeem_example =
    create-redeem plain 9 bytes 1 kitchen 100 before with_code raw_code made (omega arith) typed
      typed-TypedAs 200 6 (98 ∷ []) 201 (omega arith) new_token solid_token

abbrev calls : List KioskCall
calls =
    KioskCall.redeeming typed 200 6 (98 ∷ []) 201
    ∷ KioskCall.redeeming raw_code 250 7 (99 ∷ []) 251
    ∷ KioskCall.revoking 1 6 300
    ∷ []

redemptions_once_example : redemption_count plain (82 ∷ 48 ∷ 49 ∷ []) calls with_code ≤ 1
redemptions_once_example = redemptions_once plain (82 ∷ 48 ∷ 49 ∷ []) calls with_code

abbrev after_revoke : KioskDb
after_revoke = record with_code { devices = record first_device { revoked_at = some 50 } ∷ [] }

refused : authenticate plain (97 ∷ []) after_revoke ≡ err kiosk_device_revoked
unfolding authenticate get_by_token_hash find trim_left trim_right is_space
refused = refl

run_calls_revoked_example :
    authenticate plain (97 ∷ []) (run_calls plain calls after_revoke) ≡ err kiosk_device_revoked
run_calls_revoked_example = run_calls_revoked plain (97 ∷ []) after_revoke refused calls
