-- ===== src/Deeplink.antt =====
-- Signed deep links: internal/deeplink/domain/action.go, internal/deeplink/app/signer.go and the
-- redemption that internal/deeplink/adapter/http.go confirms. The MAC with its key, the base64url
-- encoding, the strict decoding and the hash of a signature are arguments. Texts are lists of their
-- bytes, and times are from 1970 on.
pub mod Paths
pub mod Signatures
pub mod Payloads
pub mod Confirmations
pub mod Redemptions
pub mod Once
mod Examples
use nestova.Base.{
  ℕ, ◌+◌, ◌-◌, ◌*◌, ◌/◌, Bool, true, false, not, List, [], ◌∷◌, ◌++◌, Option, none, some, Result,
  ok, err, ◌>>=◌, ◌>>◌, fail_if, or_fail, leb, if◌then◌else◌, find,
}
use nestova.Clock.{Time, minute, second}
use nestova.Text.{is_empty, same_bytes}
use nestova.Money.Decimals.{plain}
use nestova.Tasks.Schema.{Store, Error, reward_not_found, RewardRedemption, RedemptionStatus}
use nestova.Tasks.Rewards.{is_reward, redeem_with_debit}

pub data Action : Type 0 where
  claim_task complete_task add_chore redeem_reward unknown_action : Action

pub data DeepLinkError : Type 0 where
  action_unknown missing_id link_expired link_invalid_signature too_many_attempts
        invalid_reward_id :
      DeepLinkError
  task_error : Error → DeepLinkError

-- The action's own text: `claim-task`, `complete-task`, `add-chore` and `redeem-reward`.
abbrev pub action_text : Action → List ℕ
action_text Action.claim_task = 99 ∷ 108 ∷ 97 ∷ 105 ∷ 109 ∷ 45 ∷ 116 ∷ 97 ∷ 115 ∷ 107 ∷ []
action_text Action.complete_task =
    99 ∷ 111 ∷ 109 ∷ 112 ∷ 108 ∷ 101 ∷ 116 ∷ 101 ∷ 45 ∷ 116 ∷ 97 ∷ 115 ∷ 107 ∷ []
action_text Action.add_chore = 97 ∷ 100 ∷ 100 ∷ 45 ∷ 99 ∷ 104 ∷ 111 ∷ 114 ∷ 101 ∷ []
action_text Action.redeem_reward =
    114 ∷ 101 ∷ 100 ∷ 101 ∷ 101 ∷ 109 ∷ 45 ∷ 114 ∷ 101 ∷ 119 ∷ 97 ∷ 114 ∷ 100 ∷ []
action_text Action.unknown_action = []

abbrev pub is_unknown : Action → Bool
is_unknown Action.unknown_action = true
is_unknown _ = false

abbrev pub requires_id : Action → Bool
requires_id Action.add_chore = false
requires_id _ = true

-- `/go/`
abbrev pub go_prefix : List ℕ
go_prefix = 47 ∷ 103 ∷ 111 ∷ 47 ∷ []

unfoldable pub action_path : Action → List ℕ → Result DeepLinkError (List ℕ)
action_path a id = do
  fail_if (is_unknown a) action_unknown
  if requires_id a
      then (fail_if (is_empty id) missing_id >> ok (go_prefix ++ (action_text a ++ (47 ∷ id))))
      else (fail_if (not (is_empty id)) missing_id >> ok (go_prefix ++ action_text a))

abbrev pub link_ttl : Time
link_ttl = 10 * minute

-- Seconds since 1970-01-01.
abbrev pub unix : Time → ℕ
unix t = t / second - 62135596800

pub record Signer : Type 0 where
  pub mac : List ℕ → List ℕ
  pub encode : List ℕ → List ℕ
  pub decode_string : List ℕ → Option (List ℕ)
  pub hash_signature : List ℕ → ℕ

-- `path|expiry`
abbrev pub mac_payload : List ℕ → ℕ → List ℕ
mac_payload path expiry = path ++ (124 ∷ plain expiry)

module _ (s : Signer) where
  abbrev pub signature_of : List ℕ → ℕ → List ℕ
  signature_of path expiry = s.mac (mac_payload path expiry)

  unfoldable pub sign : List ℕ → Time → ℕ × List ℕ
  sign path now =
      let expiry = unix (now + link_ttl) in (expiry, s.encode (signature_of path expiry))

  -- Only the canonical text of some bytes is decoded.
  unfoldable pub decode : List ℕ → Result DeepLinkError (List ℕ)
  decode text = do
    bytes ← or_fail (s.decode_string text) link_invalid_signature
    fail_if (not (same_bytes (s.encode bytes) text)) link_invalid_signature
    ok bytes

  unfoldable pub verify : List ℕ → ℕ → List ℕ → Time → Result DeepLinkError (List ℕ)
  verify path expiry signature now = do
    got ← decode signature
    fail_if (not (same_bytes got (signature_of path expiry))) link_invalid_signature
    fail_if (leb expiry (unix now)) link_expired
    ok got

  -- A link without a signature is refused before it is decoded.
  unfoldable pub verify_signature : List ℕ → ℕ → List ℕ → Time → Result DeepLinkError (List ℕ)
  verify_signature path expiry signature now = do
    fail_if (is_empty signature) link_invalid_signature
    verify path expiry signature now

abbrev pub lift_task {ℓ} : {A : Type ℓ} → Result Error A → Result DeepLinkError A
lift_task (ok a) = ok a
lift_task (err e) = err (task_error e)

-- RewardService.RedeemViaDeepLink.
unfoldable pub redeem_via_deep_link : Time → ℕ → RewardRedemption → Store → Result Error (Store × ℕ)
redeem_via_deep_link now entry_id r db = do
  reward ← or_fail (find (is_reward r.household r.reward) db.rewards) reward_not_found
  fail_if (not reward.active) reward_not_found
  redeem_with_debit now entry_id r db

-- A member's confirmation of a redemption.
pub record Confirmation : Type 0 where
  pub household : ℕ
  pub member : ℕ
  pub reward_id : List ℕ
  pub expiry : ℕ
  pub signature : List ℕ
  pub now : Time
  pub admitted : Bool
  pub redemption_id : ℕ
  pub entry_id : ℕ

-- The handlers: the signer, and the parser of identifiers. `admitted` is the rate limiter's answer.
pub record WebHandlers : Type 0 where
  pub signer : Signer
  pub parse_reward_id : List ℕ → Option ℕ

abbrev pub redemption_of : WebHandlers → Confirmation → ℕ → List ℕ → RewardRedemption
redemption_of h c reward bytes = record {
  id = c.redemption_id;
  household = c.household;
  reward = reward;
  member = c.member;
  status = RedemptionStatus.pending;
  denied_reason = none;
  deep_link_signature_hash = some (h.signer.hash_signature bytes);
  created_at = c.now;
  updated_at = c.now;
}

-- The confirmation of a link to a reward. Its session, form and CSRF token are checked before.
unfoldable pub confirm_redeem :
    WebHandlers → Confirmation → Store → Result DeepLinkError (Store × ℕ)
confirm_redeem h c db = do
  path ← action_path Action.redeem_reward c.reward_id
  bytes ← verify_signature h.signer path c.expiry c.signature c.now
  fail_if (not c.admitted) too_many_attempts
  reward ← or_fail (h.parse_reward_id c.reward_id) invalid_reward_id
  lift_task (redeem_via_deep_link c.now c.entry_id (redemption_of h c reward bytes) db)
