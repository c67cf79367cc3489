-- ===== src/Tasks/Examples/Operations.antt =====
-- Single operations on the small household.
use nestova.Base.{any, select, count, find, update, ◌*◌, ◌≡◌, refl, [], ◌∷◌, none, some, arith}
use nestova.Base.Int.{◌+ℤ◌, neg, pos}
use nestova.Base.{List, ◌+◌}
use nestova.Clock.{Time, hour, ns_per_day}
use nestova.Tasks.Schema.{Store, TaskInstance, scheduled, RedemptionStatus}
use nestova.Tasks.Instances.{new_instance}
use nestova.Tasks.Claims.{claimed}
use nestova.Tasks.Rewards.{redeem_with_debit, deny}
use nestova.Tasks.Ledger.{balance}
use nestova.Tasks.Streak.{current_streak, has_day, count_back}
use nestova.Tasks.Rewards.{debit_entry, refund_redemption}
use nestova.Base.{ok}
use nestova.Tasks.Rewards.{refund_entry}
use nestova.Tasks.Schema.{ChoreTrade, proposed, accepted}
use nestova.Tasks.Trades.{accept, swapped, closed_as, can_accept, reservation, free_reservations}
use nestova.Tasks.Trades.Swap.{Swaps, accept-Swaps}
use nestova.Tasks.Rows.{HasKeys}
use nestova.Tasks.Examples.{chore, first_award, home, wish}

-- Chores were done yesterday, the day before and four days ago.
abbrev done_at : List Time
done_at =
    (99 * ns_per_day + hour) ∷ (98 * ns_per_day) ∷ (98 * ns_per_day + hour) ∷ (96 * ns_per_day) ∷ []

streak : current_streak done_at (100 * ns_per_day + 8 * hour) ≡ 2
unfolding current_streak has_day count_back any
streak = refl

abbrev expiring : Store
expiring = record home { instances = claimed 5 7 chore ∷ [] }

-- Member 7 has redeemed the reward, and then it was denied.
abbrev redeemed : Store
redeemed = record home {
  ledger = debit_entry 20 401 wish 5 ∷ first_award ∷ [];
  redemptions = wish ∷ [];
}

redeemed_lem : redeem_with_debit 20 401 wish home ≡ ok (redeemed, 5)
unfolding redeem_with_debit balance ◌+ℤ◌ find any update count
redeemed_lem = refl

abbrev denied : Store
denied = record redeemed {
  ledger = refund_entry 30 501 1 7 50 (pos 5) ∷ debit_entry 20 401 wish 5 ∷ first_award ∷ [];
  redemptions = record wish { status = RedemptionStatus.denied; updated_at = 30 } ∷ [];
}

denied_lem : deny 30 501 1 50 none redeemed ≡ ok denied
unfolding deny refund_redemption find update neg any
denied_lem = refl

-- Two chores of the two members, and a trade of them.
abbrev traded : ChoreTrade
traded = record {
  id = 60;
  household = 1;
  proposer = 7;
  responder = 8;
  offered = 11;
  requested = 13;
  status = proposed;
  created_at = 0;
  resolved_at = none;
  expires_at = 21 * ns_per_day;
}

abbrev of_proposer : TaskInstance
of_proposer = new_instance 11 1 1 (some 7) (some (20 * ns_per_day)) scheduled

abbrev of_responder : TaskInstance
of_responder = new_instance 13 2 1 (some 8) (some (21 * ns_per_day)) scheduled

abbrev with_trade : Store
with_trade = record home {
  instances = of_proposer ∷ of_responder ∷ [];
  trades = traded ∷ [];
  reservations = reservation traded 11 ∷ reservation traded 13 ∷ [];
}

abbrev exchanged : Store
exchanged = record with_trade {
  instances = swapped 9 traded of_proposer ∷ swapped 9 traded of_responder ∷ [];
  trades = closed_as accepted 5 traded ∷ [];
  reservations = [];
}

accepted_lem : accept 9 1 60 8 5 with_trade ≡ ok exchanged
unfolding accept find count update free_reservations select any
accepted_lem = refl

accept-Swaps_example :
    (t : ChoreTrade) × (find (can_accept 1 60 8 5) with_trade.trades ≡ some t)
    × Swaps t with_trade exchanged
accept-Swaps_example =
    accept-Swaps 9 1 60 8 5 with_trade exchanged has_keys ((λ e. ground arith), tt) accepted_lem
  where
    has_keys : HasKeys with_trade.instances
    has_keys id = unfold count in ground arith

-- Member 8 may not claim what member 7 has.
abbrev claimed_home : Store
claimed_home = record home { instances = claimed 5 7 chore ∷ [] }
