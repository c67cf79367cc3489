-- ===== src/Tasks/Rewards/Soundness.antt =====
-- The ledger under the reward operations of internal/tasks/adapter/gamification_postgres.go.
use nestova.Base.{
  ℕ, ◌≤◌, ◌≡◌, refl, inl, inr, true, false, ◌&&◌, ◌∷◌, Option, arith, ◌==◌, Bool-cases, find,
  OnSuccess, OnSuccess-or_fail,
}
use nestova.Base.Int.{ℤ, pos, negsuc, ◌+ℤ◌, ◌≤ℤ◌, neg, +ℤ_parts, neg_parts}
use nestova.Clock.{Time}
use nestova.Tasks.Schema.{Store, PointEntry, redemption}
use nestova.Tasks.Ledger.{balance}
use nestova.Tasks.Ledger.Soundness.{
  IsDebit, IsSound, StoreSound, Soundly, IsSound-cons, IsSound-credit, no_award_once,
}
use Prim.Native.String.{String}
use nestova.Base.{find-All, find-test}
use nestova.Base.Int.{ltb_ℤ}
use nestova.Tasks.Schema.{RewardRedemption}
use nestova.Tasks.Rewards.{
  redeem_with_debit, is_reward, debit_entry, refund_redemption, is_debit, refund_entry, deny,
  cancel, fulfill, is_resolvable,
}

redeem_points : (z : ℤ) (cost : ℕ) → ltb_ℤ z (pos cost) ≡ false → pos 0 ≤ℤ neg (pos cost) +ℤ z
redeem_points (pos n) cost h =
    let fits : cost ≤ n = ground arith in
    omega (arith, +ℤ_parts (neg (pos cost)) (pos n), neg_parts (pos cost))
redeem_points (negsuc n) cost h = absurd (ground arith)

pub redeem-Sound :
    (now : Time) (entry_id : ℕ) (r : RewardRedemption) (s : Store)
    → StoreSound s
    → OnSuccess (λ p. StoreSound p.0) (redeem_with_debit now entry_id r s)
unfolding redeem_with_debit
redeem-Sound now entry_id r s v =
    OnSuccess-or_fail _ (find (is_reward r.household r.reward) s.rewards) _ _ λ reward _.
      elim (Bool-cases (ltb_ℤ (balance r.household r.member s.ledger) (pos reward.cost_points))) [
        | inl poor ↦ ground arith
        | inr rich ↦
            let entry = debit_entry now entry_id r reward.cost_points in
            let sound : IsSound (entry ∷ s.ledger) =
              IsSound-cons entry s.ledger v (λ _. omega (arith, neg_parts (pos reward.cost_points)))
                (no_award_once entry s.ledger v refl)
                (redeem_points (balance r.household r.member s.ledger) reward.cost_points rich) in
            ground arith
      ]

refund-Sound :
    (now : Time) (entry_id household member id : ℕ) (s : Store)
    → StoreSound s
    → Soundly (refund_redemption now entry_id household member id s)
unfolding refund_redemption
refund-Sound now entry_id household member id s v =
    OnSuccess-or_fail _ (find (is_debit household id) s.ledger) _ _ λ debit found.
      let negative : debit.points ≤ℤ pos 0 =
        find-All IsDebit (is_debit household id) s.ledger v.debits found
          (debit_type debit (find-test (is_debit household id) s.ledger found)) in
      let refund = refund_entry now entry_id household member id (neg debit.points) in
      IsSound-credit refund s.ledger v (λ e. cc) (no_award_once refund s.ledger v refl)
        (omega (arith, neg_parts debit.points))
  where
    debit_type : (e : PointEntry) → is_debit household id e ≡ true → e.source_type ≡ redemption
    debit_type e h = ground arith

pub deny-Sound :
    (now : Time) (entry_id household id : ℕ) (reason : Option String) (s : Store)
    → StoreSound s
    → Soundly (deny now entry_id household id reason s)
unfolding deny
deny-Sound now entry_id household id reason s v =
    OnSuccess-or_fail _ (find (is_resolvable household id s.rewards) s.redemptions) _ _
      λ r _. refund-Sound now entry_id household r.member id _ v

pub cancel-Sound :
    (now : Time) (entry_id household id member : ℕ) (s : Store)
    → StoreSound s
    → Soundly (cancel now entry_id household id member s)
unfolding cancel
cancel-Sound now entry_id household id member s v =
    OnSuccess-or_fail _
      (find (λ r. is_resolvable household id s.rewards r && r.member == member) s.redemptions) _ _
      λ r _. refund-Sound now entry_id household member id _ v

pub fulfill-Sound :
    (now : Time) (household id : ℕ) (s : Store)
    → StoreSound s
    → Soundly (fulfill now household id s)
unfolding fulfill
fulfill-Sound now household id s v = ground arith
