-- ===== src/Tasks/System/Untouched.antt =====
-- The instances under redemptions and under trades that are not accepted.
use Prim.Native.String.{String}
use nestova.Base.{ℕ, ◌≡◌, Bool, Option, arith}
use nestova.Clock.{Time}
use nestova.Tasks.Schema.{Store, ChoreTrade, TradeStatus, RewardRedemption}
use nestova.Tasks.Rewards.{redeem_with_debit, fulfill, deny, cancel, refund_redemption}
use nestova.Tasks.Trades.{Proposal, propose, insert_trade, close_trade}
use nestova.Tasks.System.{after, after_redeem}

pub redeem-instances :
    (now : Time) (entry_id : ℕ) (r : RewardRedemption) (s : Store)
    → (after_redeem s (redeem_with_debit now entry_id r s)).instances ≡ s.instances
unfolding redeem_with_debit
redeem-instances now entry_id r s = ground arith

pub fulfill-instances :
    (now : Time) (household id : ℕ) (s : Store)
    → (after s (fulfill now household id s)).instances ≡ s.instances
unfolding fulfill
fulfill-instances now household id s = ground arith

pub deny-instances :
    (now : Time) (entry_id household id : ℕ) (reason : Option String) (s : Store)
    → (after s (deny now entry_id household id reason s)).instances ≡ s.instances
unfolding deny refund_redemption
deny-instances now entry_id household id reason s = ground arith

pub cancel-instances :
    (now : Time) (entry_id household id member : ℕ) (s : Store)
    → (after s (cancel now entry_id household id member s)).instances ≡ s.instances
unfolding cancel refund_redemption
cancel-instances now entry_id household id member s = ground arith

pub propose-instances :
    (wall now : Time) (household : ℕ) (p : Proposal) (s : Store)
    → (after s (propose wall now household p s)).instances ≡ s.instances
unfolding propose insert_trade
propose-instances wall now household p s = ground arith

pub close_trade-instances :
    (hit : ChoreTrade → Bool) (status : TradeStatus) (at : Time) (s : Store)
    → (after s (close_trade hit status at s)).instances ≡ s.instances
close_trade-instances hit status at s = ground arith
