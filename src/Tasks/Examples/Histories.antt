-- ===== src/Tasks/Examples/Histories.antt =====
-- Histories of the small household.
use nestova.Base.{any, count, find, select, update, ◌*◌, ◌≡◌, refl, List, [], ◌∷◌, some, arith}
use nestova.Base.Int.{◌+ℤ◌, neg, pos}
use nestova.Tasks.Schema.{claim_expiry_penalty}
use nestova.Tasks.Instances.{insert, respawn_if_standing}
use nestova.Tasks.Claims.{
  claim, claimed, sweep_expired_claims, reverted, claims_of, sort_by_claimant, insert_sorted,
  penalize_all, penalize_lapsed_claim, lapsed_claim,
}
use nestova.Tasks.Closing.{complete_and_award, completed}
use nestova.Tasks.Rewards.{redeem_with_debit, deny}
use nestova.Tasks.Ledger.{balance, award, insert_claim_expiry_penalty}
use nestova.Tasks.Ledger.Soundness.{IsSound, StoreSound, IsSound-credit}
use nestova.Clock.{ns_per_day}
use nestova.Base.{map}
use nestova.Tasks.Schema.{Store, accepted, scheduled}
use nestova.Tasks.Instances.{new_instance}
use nestova.Tasks.Trades.{
  propose, insert_trade, reserve_instances, is_instance_tradeable, accept, free_reservations,
}
use nestova.Tasks.System.{Operation, proposes, accepts, run, step}
use nestova.Tasks.System.Soundness.{run-Sound}
use nestova.Tasks.System.Lifecycle.{run-Advances}
use nestova.Tasks.System.Invariant.{run-TableIsValid, run-IsReserved}
use nestova.Tasks.Rows.{TableIsValid, RowIsValid}
use nestova.Tasks.Lifecycle.{Advances}
use nestova.Tasks.Trades.Reservations.{IsReserved, trading, reserved_by}
use nestova.Tasks.Examples.{week, chore, open_standing, first_award, home}

empty-Sound : IsSound []
unfolding balance count
empty-Sound = record { nonneg = λ hh m. omega arith; debits = tt; awarded_once = λ id. omega arith }

home-Sound : StoreSound home
unfolding count
home-Sound = IsSound-credit first_award [] empty-Sound (λ e. cc) (λ id. ground arith) (omega arith)

run-Sound_example : StoreSound (run week home)
run-Sound_example = run-Sound week home home-Sound

-- The claim's penalty of 4 is taken, and the redemption of 5 is refused, since 2 points are left.
balance-week : balance 1 7 (run week home).ledger ≡ pos 2
unfolding run step claim claimed sweep_expired_claims reverted claims_of sort_by_claimant
    insert_sorted penalize_all insert_claim_expiry_penalty claim_expiry_penalty
    penalize_lapsed_claim lapsed_claim complete_and_award completed award redeem_with_debit deny
    respawn_if_standing insert balance ◌+ℤ◌ neg any find select update
balance-week = refl

home-TableIsValid : TableIsValid home.instances
unfolding count
home-TableIsValid = record {
  rows = (scheduled_row, (standing_row, tt));
  keys = λ id. ground arith;
  standing_rows = λ task. ground arith;
}
  where
    scheduled_row : RowIsValid chore
    scheduled_row = record {
      done_at = λ e. absurd (ground (arith, e));
      only_done_at = λ e. refl;
      claim_timed = refl;
      expiry_claimed = λ e. absurd (ground (arith, e));
      claimant_assigned = λ e. absurd (ground (arith, e));
      claim_open = λ e. refl;
      kind_dated = refl;
      standing_in_time = λ k e. absurd (ground (arith, e));
    }

    standing_row : RowIsValid open_standing
    standing_row = record {
      done_at = λ e. absurd (ground (arith, e));
      only_done_at = λ e. refl;
      claim_timed = refl;
      expiry_claimed = λ e. absurd (ground (arith, e));
      claimant_assigned = λ e. absurd (ground (arith, e));
      claim_open = λ e. refl;
      kind_dated = refl;
      standing_in_time = λ k e. absurd (ground (arith, e));
    }

run-TableIsValid_example : TableIsValid (run week home).instances
run-TableIsValid_example = run-TableIsValid week home home-TableIsValid

-- A trade of two chores is proposed, once more while it is live, and accepted.
abbrev trading_home : Store
trading_home = record home {
  instances =
      new_instance 11 1 1 (some 7) (some (20 * ns_per_day)) scheduled
      ∷ new_instance 13 2 1 (some 8) (some (21 * ns_per_day)) scheduled
      ∷ [];
}

abbrev swap_days : List Operation
swap_days =
    proposes 5 5 1 (record { id = 60; proposer = 7; responder = 8; offered = 11; requested = 13 })
    ∷ proposes 6 6 1 (record { id = 61; proposer = 8; responder = 7; offered = 13; requested = 11 })
    ∷ accepts 9 1 60 8 7
    ∷ []

trades_made : map (λ t. t.status) (run swap_days trading_home).trades ≡ accepted ∷ []
unfolding run step propose insert_trade reserve_instances is_instance_tradeable accept
    free_reservations find count update any select
trades_made = refl

run-IsReserved_example : IsReserved (trading (run swap_days trading_home))
run-IsReserved_example = run-IsReserved swap_days trading_home no_trades
  where
    no_trades : IsReserved (trading trading_home)
    no_trades = record {
      distinct = tt;
      synced = unfold reserved_by in refl;
      exclusive = λ id. unfold count in omega arith;
    }

run-Advances_example : Advances home.instances (run week home).instances
run-Advances_example = run-Advances week home
