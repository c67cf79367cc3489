-- ===== src/Tasks/System/Soundness.antt =====
-- The point ledger over a history.
use nestova.Base.{ℕ, Bool, List, [], ◌∷◌, arith, Result, ok, err, OnSuccess}
use nestova.Clock.{Time}
use nestova.Tasks.Schema.{Store, Error}
use nestova.Tasks.Ledger.Soundness.{StoreSound, Soundly}
use nestova.Tasks.Schema.{ChoreTrade, TradeStatus}
use nestova.Tasks.Trades.{
  Proposal, propose, insert_trade, accept, decline, cancel_trade, close_trade, sweep_expired_trades,
}
use nestova.Tasks.Overdue.{mark_pending_overdue, mark_pending_overdue_all}
use nestova.Tasks.System.{
  Operation, inserts, claims, completes, completes_and_awards, skips, marks_overdue,
  marks_all_overdue, sweeps_claims, redeems, fulfills, denies, cancels, proposes, accepts, declines,
  cancels_trade, sweeps_trades, after, after_redeem, step, run,
}
use nestova.Tasks.Instances.{new_instance}
use nestova.Tasks.Closing.Soundness.{
  insert-Sound, claim-Sound, complete-Sound, complete_and_award-Sound, skip-Sound, sweep-Sound,
}
use nestova.Tasks.Rewards.Soundness.{redeem-Sound, fulfill-Sound, deny-Sound, cancel-Sound}

propose-Sound :
    (wall now : Time) (household : ℕ) (p : Proposal) (s : Store)
    → StoreSound s
    → Soundly (propose wall now household p s)
unfolding propose insert_trade
propose-Sound wall now household p s v = ground arith

accept-Sound :
    (now : Time) (household id responder : ℕ) (at : Time) (s : Store)
    → StoreSound s
    → Soundly (accept now household id responder at s)
unfolding accept
accept-Sound now household id responder at s v = ground arith

after-Sound :
    (s : Store) (r : Result Error Store) → StoreSound s → Soundly r → StoreSound (after s r)
after-Sound s (ok s') v h = h
after-Sound s (err e) v h = v

after_redeem-Sound :
    (s : Store) (r : Result Error (Store × ℕ))
    → StoreSound s
    → OnSuccess (λ p. StoreSound p.0) r
    → StoreSound (after_redeem s r)
after_redeem-Sound s (ok p) v h = h
after_redeem-Sound s (err e) v h = v

close_trade-Sound :
    (hit : ChoreTrade → Bool) (status : TradeStatus) (at : Time) (s : Store)
    → StoreSound s
    → Soundly (close_trade hit status at s)
close_trade-Sound hit status at s v = ground arith

-- One step of the system, of any kind.
step-Sound : (op : Operation) (s : Store) → StoreSound s → StoreSound (step op s)
unfolding step decline cancel_trade mark_pending_overdue mark_pending_overdue_all
    sweep_expired_trades
step-Sound (inserts now id task hh who due_on kind) s v =
    after-Sound s _ v (insert-Sound now (new_instance id task hh who due_on kind) s v)
step-Sound (claims now hh id who) s v = after-Sound s _ v (claim-Sound now hh id who s v)
step-Sound (completes now eid iid hh id by at) s v =
    after-Sound s _ v (complete-Sound now eid iid hh id by at s v)
step-Sound (completes_and_awards now eid aid iid hh id by at guard) s v =
    after-Sound s _ v (complete_and_award-Sound now eid aid iid hh id by at guard s v)
step-Sound (skips wall now eid iid hh id who) s v =
    after-Sound s _ v (skip-Sound wall now eid iid hh id who s v)
step-Sound (marks_overdue now hh as_of) s v = v
step-Sound (marks_all_overdue now as_of) s v = v
step-Sound (sweeps_claims now new_id as_of) s v = sweep-Sound now new_id as_of s v
step-Sound (redeems now eid r) s v = after_redeem-Sound s _ v (redeem-Sound now eid r s v)
step-Sound (fulfills now hh id) s v = after-Sound s _ v (fulfill-Sound now hh id s v)
step-Sound (denies now eid hh id reason) s v =
    after-Sound s _ v (deny-Sound now eid hh id reason s v)
step-Sound (cancels now eid hh id who) s v = after-Sound s _ v (cancel-Sound now eid hh id who s v)
step-Sound (proposes wall now hh p) s v = after-Sound s _ v (propose-Sound wall now hh p s v)
step-Sound (accepts now hh id who at) s v = after-Sound s _ v (accept-Sound now hh id who at s v)
step-Sound (declines now hh id who) s v = after-Sound s _ v (close_trade-Sound _ _ now s v)
step-Sound (cancels_trade now hh id who) s v = after-Sound s _ v (close_trade-Sound _ _ now s v)
step-Sound (sweeps_trades now as_of) s v = v

-- No history of the operations overdraws a member: from a ledger whose balances are at least zero,
-- whose redemption entries are debits and which awards an instance at most once, every history
-- leaves such a ledger.
pub run-Sound : (ops : List Operation) (s : Store) → StoreSound s → StoreSound (run ops s)
unfolding run
run-Sound [] s v = v
run-Sound (op ∷ ops) s v = run-Sound ops (step op s) (step-Sound op s v)
