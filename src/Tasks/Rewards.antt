-- ===== src/Tasks/Rewards.antt =====
-- Redeeming rewards: internal/tasks/adapter/gamification_postgres.go (RedeemWithDebit, Fulfill,
-- Deny, Cancel, refundRedemption). The advisory lock on the member's balance and the row lock on
-- the reward are the transactions running one after another. Reward names, which the results carry
-- for the notifications, are left out.
pub mod Soundness
pub mod RoundTrip
use Prim.Native.String.{String}
use nestova.Base.{
  ℕ, Bool, true, false, ◌&&◌, List, ◌∷◌, Option, none, some, leb, if◌then◌else◌, ◌==◌, is_key, any,
  find, count, update, Result, ok, err, ◌>>=◌, ◌>>◌, fail_if, or_fail,
}
use nestova.Base.Int.{ℤ, pos, neg, ltb_ℤ}
use nestova.Clock.{Time}
use nestova.Tasks.Schema.{
  Store, PointEntry, redemption, redemption_refund, Reward, RewardRedemption, RedemptionStatus,
  fulfilled, denied, Error, reward_not_found, insufficient_points, reward_out_of_stock,
  deep_link_already_redeemed, redemption_not_found, redemption_not_pending, database_error,
  holds_stock, is_undecided,
}
use nestova.Tasks.Ledger.{balance, is_about}

-- A redemption that uses up a unit of the reward's stock.
abbrev takes_stock : ℕ → ℕ → RewardRedemption → Bool
takes_stock household reward r =
    r.household == household && r.reward == reward && holds_stock r.status

abbrev is_sold_out : Option ℕ → ℕ → Bool
is_sold_out none redeemed = false
is_sold_out (some quantity) redeemed = leb quantity redeemed

-- The unique index on a household's deep link signatures.
abbrev pub same_signature : Option ℕ → Option ℕ → Bool
same_signature none old = false
same_signature (some hash) old = is_key old hash

abbrev pub debit_entry : Time → ℕ → RewardRedemption → ℕ → PointEntry
debit_entry now id r cost = record {
  id = id;
  household = r.household;
  member = r.member;
  source_type = redemption;
  source = some r.id;
  points = neg (pos cost);
  claim_started_at = none;
  created_at = now;
}

abbrev pub is_reward : ℕ → ℕ → Reward → Bool
is_reward household id w = w.id == id && w.household == household

unfoldable pub redeem_with_debit : Time → ℕ → RewardRedemption → Store → Result Error (Store × ℕ)
redeem_with_debit now entry_id r s = do
  reward ← or_fail (find (is_reward r.household r.reward) s.rewards) reward_not_found
  fail_if (if reward.active then false else true) reward_not_found
  fail_if (ltb_ℤ (balance r.household r.member s.ledger) (pos reward.cost_points))
      insufficient_points
  fail_if
      (is_sold_out reward.quantity_available
        (count (takes_stock r.household r.reward) s.redemptions))
      reward_out_of_stock
  fail_if (any (λ o. o.id == r.id) s.redemptions) database_error
  fail_if
      (any
        (λ o.
          o.household == r.household
          && same_signature r.deep_link_signature_hash o.deep_link_signature_hash)
        s.redemptions)
      deep_link_already_redeemed
  ok (
    record s {
      redemptions = r ∷ s.redemptions;
      ledger = debit_entry now entry_id r reward.cost_points ∷ s.ledger;
    },
    reward.cost_points,
  )

-- A pending redemption of the household whose reward is there.
abbrev pub is_resolvable : ℕ → ℕ → List Reward → RewardRedemption → Bool
is_resolvable household id rewards r =
    r.id == id
    && r.household == household
    && is_undecided r.status
    && any (λ w. w.id == r.reward) rewards

abbrev not_pending_or_not_found : ℕ → ℕ → Store → Error
not_pending_or_not_found household id s =
    if any (λ r. r.id == id && r.household == household) s.redemptions
    then redemption_not_pending
    else redemption_not_found

-- The UPDATE of a redemption's status.
abbrev pub resolved : Time → RedemptionStatus → Option String → RewardRedemption → RewardRedemption
resolved now status reason r = record r {
  status = status;
  denied_reason = reason;
  updated_at = now;
}

unfoldable pub fulfill : Time → ℕ → ℕ → Store → Result Error Store
fulfill now household id s =
    let hit = is_resolvable household id s.rewards in
    do
      r ← or_fail (find hit s.redemptions) (not_pending_or_not_found household id s)
      ok (record s {
        redemptions = update hit (λ o. resolved now fulfilled o.denied_reason o) s.redemptions;
      })

abbrev pub is_debit : ℕ → ℕ → PointEntry → Bool
is_debit household id e = e.household == household && is_about redemption id e

abbrev pub refund_entry : Time → ℕ → ℕ → ℕ → ℕ → ℤ → PointEntry
refund_entry now entry_id household member id points = record {
  id = entry_id;
  household = household;
  member = member;
  source_type = redemption_refund;
  source = some id;
  points = points;
  claim_started_at = none;
  created_at = now;
}

-- The exact amount of the original debit is given back.
unfoldable pub refund_redemption : Time → ℕ → ℕ → ℕ → ℕ → Store → Result Error Store
refund_redemption now entry_id household member id s = do
  debit ← or_fail (find (is_debit household id) s.ledger) database_error
  ok (record s {
    ledger = refund_entry now entry_id household member id (neg debit.points) ∷ s.ledger;
  })

unfoldable pub deny : Time → ℕ → ℕ → ℕ → Option String → Store → Result Error Store
deny now entry_id household id reason s =
    let hit = is_resolvable household id s.rewards in
    do
      r ← or_fail (find hit s.redemptions) (not_pending_or_not_found household id s)
      refund_redemption now entry_id household r.member id
          (record s { redemptions = update hit (resolved now denied reason) s.redemptions })

unfoldable pub cancel : Time → ℕ → ℕ → ℕ → ℕ → Store → Result Error Store
cancel now entry_id household id member s =
    let hit =
      λ (r : RewardRedemption). is_resolvable household id s.rewards r && r.member == member in
    do
      r ← or_fail (find hit s.redemptions) redemption_not_pending
      refund_redemption now entry_id household member id (record s {
        redemptions =
            update hit (λ o. resolved now RedemptionStatus.cancelled o.denied_reason o)
              s.redemptions;
      })
