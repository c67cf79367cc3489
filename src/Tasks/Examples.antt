-- ===== src/Tasks/Examples.antt =====
-- A small household for the tests: member 7 holds a claim that runs out, a reward and two chores.
mod Histories
mod Operations
use nestova.Base.{if◌then◌else◌, is_none, is_key, ◌||◌, err}
use nestova.Tasks.Schema.{is_open, instance_already_claimed, instance_in_terminal_state}
use nestova.Tasks.Instances.{is_row}
use nestova.Tasks.Claims.{can_claim}
use nestova.Base.{
  any, count, find, select, update, ℕ, ◌+◌, ◌*◌, ◌≡◌, refl, ◌≤◌, Bool, true, false, List, [], ◌∷◌,
  Option, none, some, arith,
}
use nestova.Base.Int.{◌+ℤ◌, neg, pos, ◌≤ℤ◌}
use nestova.Clock.{hour, ns_per_day}
use nestova.Tasks.Schema.{
  Store, RecurringTask, TaskInstance, scheduled, standing, done, claim_expiry_penalty, PointEntry,
  Reward, RewardRedemption, RedemptionStatus,
}
use nestova.Tasks.Instances.{new_instance, insert, respawn_if_standing}
use nestova.Tasks.Claims.{
  claim, claimed, sweep_expired_claims, reverted, claims_of, sort_by_claimant, insert_sorted,
  penalize_all, penalize_lapsed_claim, lapsed_claim,
}
use nestova.Tasks.Closing.{complete_and_award, completed}
use nestova.Tasks.Rewards.{redeem_with_debit, deny}
use nestova.Tasks.Ledger.{balance, award_entry, award, insert_claim_expiry_penalty}
use nestova.Tasks.Ledger.Soundness.{IsSound, StoreSound, IsSound-credit}
use nestova.Tasks.Lifecycle.{lookup}
use nestova.Tasks.System.{
  Operation, claims, sweeps_claims, completes_and_awards, redeems, denies, run, step,
}
use nestova.Tasks.System.Soundness.{run-Sound}
use nestova.Tasks.System.Lifecycle.{run-Advances}
use nestova.Tasks.System.Invariant.{run-TableIsValid}
use nestova.Tasks.Rows.{TableIsValid, RowIsValid}
use nestova.Tasks.Lifecycle.{Advances}
use nestova.Tasks.Claims.{is_expired}
use nestova.Tasks.Claims.Sweep.{sweep_clears, sweep_twice}
use nestova.Tasks.Rewards.{debit_entry, refund_redemption}
use nestova.Tasks.Rewards.RoundTrip.{redeem-balance, redeem-deny}
use nestova.Base.{ok}
use nestova.Tasks.Rewards.{refund_entry}
use nestova.Tasks.Schema.{ChoreTrade, proposed, accepted}
use nestova.Tasks.Trades.{accept, swapped, closed_as, can_accept}
use nestova.Tasks.Trades.Swap.{Swaps, accept-Swaps}
use nestova.Tasks.Rows.{HasKeys}

abbrev pub dishes : RecurringTask
dishes = record { id = 1; household = 1; title = "dishes"; points = 9 }

abbrev pub windows : RecurringTask
windows = record { id = 2; household = 1; title = "windows"; points = 4 }

abbrev film_night : Reward
film_night = record {
  id = 30;
  household = 1;
  name = "film night";
  cost_points = 5;
  quantity_available = some 1;
  active = true;
}

abbrev pub chore : TaskInstance
chore = new_instance 11 1 1 none (some (20 * ns_per_day)) scheduled

abbrev pub open_standing : TaskInstance
open_standing = new_instance 12 2 1 none none standing

abbrev pub first_award : PointEntry
first_award = award_entry 5 100 1 7 10 6

abbrev pub home : Store
home = record {
  tasks = dishes ∷ windows ∷ [];
  instances = chore ∷ open_standing ∷ [];
  ledger = first_award ∷ [];
  rewards = film_night ∷ [];
  redemptions = [];
  trades = [];
  reservations = [];
}

abbrev pub wish : RewardRedemption
wish = record {
  id = 50;
  household = 1;
  reward = 30;
  member = 7;
  status = RedemptionStatus.pending;
  denied_reason = none;
  deep_link_signature_hash = none;
  created_at = 0;
  updated_at = 0;
}

-- A claim runs out, the standing chore is done, a reward is redeemed and denied.
abbrev week : List Operation
week =
    claims 100 1 11 7
    ∷ sweeps_claims 200 (λ n. 200 + n) (13 * hour)
    ∷ completes_and_awards 300 301 302 13 1 12 7 300 true
    ∷ redeems 400 401 wish
    ∷ denies 500 501 1 50 none
    ∷ []
