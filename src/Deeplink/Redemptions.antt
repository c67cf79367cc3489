-- ===== src/Deeplink/Redemptions.antt =====
-- The redemptions under the confirmations of internal/deeplink/adapter/http.go and the calls of
-- internal/tasks/adapter/gamification_postgres.go that write them.
use Prim.Native.String.{String}
use nestova.Base.{
  ℕ, ◌≡◌, refl, Bool, true, false, ◌&&◌, Option, Result, ok, err, ◌==◌, find, any, update, is_key,
  subst, ◌∙◌, arith, OnSuccess, OnSuccess-or_fail, any-kept,
}
use nestova.Clock.{Time}
use nestova.Tasks.Schema.{Store, Error, RewardRedemption, RedemptionStatus, fulfilled, denied}
use nestova.Tasks.Rewards.{
  redeem_with_debit, fulfill, deny, cancel, refund_redemption, is_debit, is_resolvable, resolved,
}
use nestova.Deeplink.{DeepLinkError, WebHandlers, Confirmation, confirm_redeem}
use nestova.Deeplink.Confirmations.{IsAdded, redeem-IsAdded, confirm-Adds}

-- The calls that write redemptions, with the times and the new identifiers that they draw.
pub data RewardCall : Type 0 where
  confirming : Confirmation → RewardCall
  redeeming : Time → ℕ → RewardRedemption → RewardCall
  fulfilling : Time → ℕ → ℕ → RewardCall
  denying : Time → ℕ → ℕ → ℕ → Option String → RewardCall
  cancelling : Time → ℕ → ℕ → ℕ → ℕ → RewardCall

abbrev pub store_or {ℓ} : {E : Type ℓ} → Store → Result E Store → Store
store_or db (ok db') = db'
store_or db (err e) = db

abbrev pub debited_or {ℓ} : {E : Type ℓ} → Store → Result E (Store × ℕ) → Store
debited_or db (ok made) = made.0
debited_or db (err e) = db

abbrev pub is_ok {ℓ κ} : {E : Type ℓ} {A : Type κ} → Result E A → Bool
is_ok (ok a) = true
is_ok (err e) = false

module _ (h : WebHandlers) where
  unfoldable pub step_reward : RewardCall → Store → Store
  step_reward (RewardCall.confirming c) db = debited_or db (confirm_redeem h c db)
  step_reward (RewardCall.redeeming now entry_id r) db =
      debited_or db (redeem_with_debit now entry_id r db)
  step_reward (RewardCall.fulfilling now household id) db =
      store_or db (fulfill now household id db)
  step_reward (RewardCall.denying now entry_id household id reason) db =
      store_or db (deny now entry_id household id reason db)
  step_reward (RewardCall.cancelling now entry_id household id member) db =
      store_or db (cancel now entry_id household id member db)

-- A redemption of the household with the hash of a signature is in the table.
abbrev pub is_used : ℕ → ℕ → Store → Bool
is_used household hash db =
    any (λ o. o.household == household && is_key o.deep_link_signature_hash hash) db.redemptions

module _ (household hash : ℕ) where
  abbrev pub IsKept : Store → Store → Type 0
  IsKept db db' = is_used household hash db' ≡ is_used household hash db

  refund-IsKept :
      (now : Time) (entry_id home member id : ℕ) (db : Store)
      → OnSuccess (IsKept db) (refund_redemption now entry_id home member id db)
  unfolding refund_redemption
  refund-IsKept now entry_id home member id db =
      OnSuccess-or_fail _ (find (is_debit home id) db.ledger) _ _ λ debit found. refl

  resolved-IsKept :
      (now : Time) (status : RedemptionStatus) (reason : RewardRedemption → Option String)
      (hit : RewardRedemption → Bool) (db : Store)
      → IsKept db (record db {
        redemptions = update hit (λ o. resolved now status (reason o) o) db.redemptions;
      })
  resolved-IsKept now status reason hit db =
      any-kept _ hit (λ o. resolved now status (reason o) o) db.redemptions λ o. refl

  pub fulfill-IsKept :
      (now : Time) (home id : ℕ) (db : Store) → OnSuccess (IsKept db) (fulfill now home id db)
  unfolding fulfill
  fulfill-IsKept now home id db =
      OnSuccess-or_fail _ (find (is_resolvable home id db.rewards) db.redemptions) _ _
        λ r found. resolved-IsKept now fulfilled (λ o. o.denied_reason) _ db

  refunded-IsKept :
      (now : Time) (status : RedemptionStatus) (reason : RewardRedemption → Option String)
      (hit : RewardRedemption → Bool) (entry_id home member id : ℕ) (db : Store)
      → OnSuccess (IsKept db) (
          refund_redemption now entry_id home member id (record db {
            redemptions = update hit (λ o. resolved now status (reason o) o) db.redemptions;
          }))
  refunded-IsKept now status reason hit entry_id home member id db =
      subst
        (λ b.
          OnSuccess (λ db'. is_used household hash db' ≡ b)
            (refund_redemption now entry_id home member id (record db {
              redemptions = update hit (λ o. resolved now status (reason o) o) db.redemptions;
            })))
        (resolved-IsKept now status reason hit db) (refund-IsKept now entry_id home member id _)

  pub deny-IsKept :
      (now : Time) (entry_id home id : ℕ) (reason : Option String) (db : Store)
      → OnSuccess (IsKept db) (deny now entry_id home id reason db)
  unfolding deny
  deny-IsKept now entry_id home id reason db =
      OnSuccess-or_fail _ (find (is_resolvable home id db.rewards) db.redemptions) _ _ λ r found.
        refunded-IsKept now denied (λ o. reason) (is_resolvable home id db.rewards) entry_id home
          r.member id db

  pub cancel-IsKept :
      (now : Time) (entry_id home id member : ℕ) (db : Store)
      → OnSuccess (IsKept db) (cancel now entry_id home id member db)
  unfolding cancel
  cancel-IsKept now entry_id home id member db =
      OnSuccess-or_fail _
        (find (λ r. is_resolvable home id db.rewards r && r.member == member) db.redemptions) _ _
        λ r found.
          refunded-IsKept now RedemptionStatus.cancelled (λ o. o.denied_reason)
            (λ r. is_resolvable home id db.rewards r && r.member == member) entry_id home member id
            db

  pub added-IsUsed :
      (r : RewardRedemption) (db db' : Store)
      → IsAdded r db db'
      → is_used household hash db ≡ true
      → is_used household hash db' ≡ true
  unfolding any
  added-IsUsed r db db' added used = rw (added.made, used) (ground arith)

  kept_or :
      (db : Store) (m : Result Error Store)
      → OnSuccess (IsKept db) m
      → is_used household hash db ≡ true
      → is_used household hash (store_or db m) ≡ true
  kept_or db (ok db') kept used = kept ∙ used
  kept_or db (err e) kept used = used

  -- What is used stays used by every call.
  pub step-IsUsed :
      (h : WebHandlers) (call : RewardCall) (db : Store)
      → is_used household hash db ≡ true
      → is_used household hash (step_reward h call db) ≡ true
  unfolding step_reward
  step-IsUsed h (RewardCall.confirming c) db used =
      result (confirm_redeem h c db) (confirm-Adds h c db)
    where
      result :
          (m : Result DeepLinkError (Store × ℕ))
          → OnSuccess (λ made. (r : RewardRedemption) × IsAdded r db made.0) m
          → is_used household hash (debited_or db m) ≡ true
      result (err e) p = used
      result (ok made) p = added-IsUsed p.0 db made.0 p.1 used
  step-IsUsed h (RewardCall.redeeming now entry_id r) db used =
      result (redeem_with_debit now entry_id r db) (redeem-IsAdded now entry_id r db)
    where
      result :
          (m : Result Error (Store × ℕ))
          → OnSuccess (λ made. IsAdded r db made.0) m
          → is_used household hash (debited_or db m) ≡ true
      result (err e) p = used
      result (ok made) p = added-IsUsed r db made.0 p used
  step-IsUsed h (RewardCall.fulfilling now home id) db used =
      kept_or db (fulfill now home id db) (fulfill-IsKept now home id db) used
  step-IsUsed h (RewardCall.denying now entry_id home id reason) db used =
      kept_or db (deny now entry_id home id reason db) (deny-IsKept now entry_id home id reason db)
        used
  step-IsUsed h (RewardCall.cancelling now entry_id home id member) db used =
      kept_or db (cancel now entry_id home id member db)
        (cancel-IsKept now entry_id home id member db) used
