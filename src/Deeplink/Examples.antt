-- ===== src/Deeplink/Examples.antt =====
-- The links of one household, with a signer that signs and encodes by leaving the bytes as they are.
use nestova.Base.{
  ℕ, ◌≡◌, ◌+◌, ◌*◌, ◌<◌, ◌≤◌, ◌↔◌, refl, true, List, [], ◌∷◌, Option, none, some, ok, any, find,
  count, arith,
}
use nestova.Clock.{Time, second}
use nestova.Base.Int.{pos, neg, ◌+ℤ◌}
use nestova.Tasks.Ledger.{balance}
use nestova.Tasks.Schema.{Store, task_instance}
use nestova.Tasks.Rewards.{redeem_with_debit}
use nestova.Money.Decimals.{digits}
use nestova.Deeplink.{
  Action, Signer, mac_payload, signature_of, sign, decode, verify, verify_signature, action_path,
  WebHandlers, Confirmation, confirm_redeem, redeem_via_deep_link,
}
use nestova.Deeplink.Signatures.{verify_lem}
use nestova.Deeplink.Payloads.{verify_another}
use nestova.Deeplink.Redemptions.{RewardCall, step_reward}
use nestova.Deeplink.Once.{link_redemptions, redeems_link, link_redemptions_once}

abbrev copier : Signer
copier = record {
  mac = λ bytes. bytes;
  encode = λ bytes. bytes;
  decode_string = λ text. some text;
  hash_signature = sum;
}
  where
    sum : List ℕ → ℕ
    sum [] = 0
    sum (b ∷ bytes) = b + sum bytes

abbrev handlers : WebHandlers
handlers = record { signer = copier; parse_reward_id = first }
  where
    first : List ℕ → Option ℕ
    first [] = none
    first (b ∷ bytes) = some b

-- The second 1000 of 1970.
abbrev epoch : Time
epoch = (62135596800 + 1000) * second

-- `/go/claim-task/7`
abbrev claim_path : List ℕ
claim_path =
    47 ∷ 103 ∷ 111 ∷ 47 ∷ 99 ∷ 108 ∷ 97 ∷ 105 ∷ 109 ∷ 45 ∷ 116 ∷ 97 ∷ 115 ∷ 107 ∷ 47 ∷ 55 ∷ []

abbrev seven : List ℕ
seven = 55 ∷ []

claim_path_built : action_path Action.claim_task seven ≡ ok claim_path
unfolding action_path
claim_path_built = refl

signed_expiry : (sign copier claim_path epoch).0 ≡ 1600
unfolding sign
signed_expiry = refl

verify_lem_example :
    (verify copier claim_path 1600 (signature_of copier claim_path 1600) epoch
      ≡ ok (signature_of copier claim_path 1600))
    ↔ ((signature_of copier claim_path 1600 ≡ signature_of copier claim_path 1600)
        × (1000 < 1600)
        × (signature_of copier claim_path 1600 ≡ signature_of copier claim_path 1600))
verify_lem_example =
    verify_lem copier (λ bytes. refl) claim_path 1600 (signature_of copier claim_path 1600) epoch
      (signature_of copier claim_path 1600)

claim_verified :
    verify copier claim_path 1600 (sign copier claim_path epoch).1 epoch
    ≡ ok (signature_of copier claim_path 1600)
unfolding verify sign decode digits
claim_verified = refl

verify_another_example :
    (Action.claim_task ≡ Action.claim_task)
    × (seven ≡ seven)
    × (1600 ≡ (sign copier claim_path epoch).0)
verify_another_example =
    verify_another copier (λ bytes. refl) (λ x y e. e) Action.claim_task Action.claim_task seven
      seven claim_path claim_path epoch epoch 1600 claim_path_built claim_path_built (omega arith)
      (omega arith) claim_verified

-- `/go/redeem-reward/7`, where the identifier is read as 55.
abbrev reward_path : List ℕ
reward_path =
    47 ∷ 103 ∷ 111 ∷ 47 ∷ 114 ∷ 101 ∷ 100 ∷ 101 ∷ 101 ∷ 109 ∷ 45 ∷ 114 ∷ 101 ∷ 119 ∷ 97 ∷ 114 ∷ 100
    ∷ 47 ∷ 55 ∷ []

abbrev rich_home : Store
rich_home = record {
  tasks = [];
  instances = [];
  ledger =
      record {
        id = 400;
        household = 1;
        member = 7;
        source_type = task_instance;
        source = some 10;
        points = pos 20;
        claim_started_at = none;
        created_at = 0;
      }
      ∷ [];
  rewards =
      record {
        id = 55;
        household = 1;
        name = "film night";
        cost_points = 5;
        quantity_available = none;
        active = true;
      }
      ∷ [];
  redemptions = [];
  trades = [];
  reservations = [];
}

abbrev confirmation : ℕ → Confirmation
confirmation id = record {
  household = 1;
  member = 7;
  reward_id = seven;
  expiry = 1600;
  signature = mac_payload reward_path 1600;
  now = epoch;
  admitted = true;
  redemption_id = id;
  entry_id = 400 + id;
}

-- The member confirms twice.
abbrev confirmations : List RewardCall
confirmations = RewardCall.confirming (confirmation 1) ∷ RewardCall.confirming (confirmation 2) ∷ []

redeemed_once : link_redemptions handlers 1 seven 1600 confirmations rich_home ≡ 1
unfolding link_redemptions redeems_link step_reward confirm_redeem redeem_via_deep_link
    redeem_with_debit action_path verify_signature verify decode digits balance ◌+ℤ◌ neg find any
    count
redeemed_once = refl

link_redemptions_once_example : link_redemptions handlers 1 seven 1600 confirmations rich_home ≤ 1
link_redemptions_once_example = link_redemptions_once handlers 1 seven 1600 confirmations rich_home
