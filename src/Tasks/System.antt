-- ===== src/Tasks/System.antt =====
-- The tasks database as a whole: every operation of the repositories as one step, and the histories
-- that the services and the schedulers can make of them. A step that fails leaves the store.
pub mod Soundness
pub mod Untouched
pub mod Writes
pub mod Lifecycle
pub mod Trades
pub mod Invariant
use Prim.Native.String.{String}
use nestova.Base.{ℕ, Bool, List, [], ◌∷◌, Option, Result, ok, err}
use nestova.Clock.{Time}
use nestova.Tasks.Schema.{Store, InstanceKind, RewardRedemption, Error}
use nestova.Tasks.Instances.{insert, new_instance}
use nestova.Tasks.Claims.{claim, sweep_expired_claims}
use nestova.Tasks.Closing.{complete, complete_and_award, skip}
use nestova.Tasks.Rewards.{redeem_with_debit, fulfill, deny, cancel}
use nestova.Tasks.Trades.{Proposal, propose, accept, decline, cancel_trade, sweep_expired_trades}
use nestova.Tasks.Overdue.{mark_pending_overdue, mark_pending_overdue_all}

-- A call with its arguments; the times and the new identifiers that it draws come first.
pub data Operation : Type 0 where
  inserts : Time → ℕ → ℕ → ℕ → Option ℕ → Option Time → InstanceKind → Operation
  claims : Time → ℕ → ℕ → ℕ → Operation
  completes : Time → ℕ → ℕ → ℕ → ℕ → ℕ → Time → Operation
  completes_and_awards : Time → ℕ → ℕ → ℕ → ℕ → ℕ → ℕ → Time → Bool → Operation
  skips : Time → Time → ℕ → ℕ → ℕ → ℕ → Option ℕ → Operation
  marks_overdue : Time → ℕ → Time → Operation
  marks_all_overdue : Time → Time → Operation
  sweeps_claims : Time → (ℕ → ℕ) → Time → Operation
  redeems : Time → ℕ → RewardRedemption → Operation
  fulfills : Time → ℕ → ℕ → Operation
  denies : Time → ℕ → ℕ → ℕ → Option String → Operation
  cancels : Time → ℕ → ℕ → ℕ → ℕ → Operation
  proposes : Time → Time → ℕ → Proposal → Operation
  accepts : Time → ℕ → ℕ → ℕ → Time → Operation
  declines : Time → ℕ → ℕ → ℕ → Operation
  cancels_trade : Time → ℕ → ℕ → ℕ → Operation
  sweeps_trades : Time → Time → Operation

-- The rollback of a failed transaction.
abbrev pub after : Store → Result Error Store → Store
after s (ok s') = s'
after s (err e) = s

abbrev pub after_redeem : Store → Result Error (Store × ℕ) → Store
after_redeem s (ok (s', cost)) = s'
after_redeem s (err e) = s

unfoldable pub step : Operation → Store → Store
step (inserts now id task hh who due_on kind) s =
    after s (insert now (new_instance id task hh who due_on kind) s)
step (claims now hh id who) s = after s (claim now hh id who s)
step (completes now eid iid hh id by at) s = after s (complete now eid iid hh id by at s)
step (completes_and_awards now eid aid iid hh id by at guard) s =
    after s (complete_and_award now eid aid iid hh id by at guard s)
step (skips wall now eid iid hh id who) s = after s (skip wall now eid iid hh id who s)
step (marks_overdue now hh as_of) s = (mark_pending_overdue now hh as_of s).0
step (marks_all_overdue now as_of) s = (mark_pending_overdue_all now as_of s).0
step (sweeps_claims now new_id as_of) s = (sweep_expired_claims now new_id as_of s).0
step (redeems now eid r) s = after_redeem s (redeem_with_debit now eid r s)
step (fulfills now hh id) s = after s (fulfill now hh id s)
step (denies now eid hh id reason) s = after s (deny now eid hh id reason s)
step (cancels now eid hh id who) s = after s (cancel now eid hh id who s)
step (proposes wall now hh p) s = after s (propose wall now hh p s)
step (accepts now hh id who at) s = after s (accept now hh id who at s)
step (declines now hh id who) s = after s (decline now hh id who s)
step (cancels_trade now hh id who) s = after s (cancel_trade now hh id who s)
step (sweeps_trades now as_of) s = (sweep_expired_trades now as_of s).0

unfoldable pub run : List Operation → Store → Store
run [] s = s
run (op ∷ ops) s = run ops (step op s)
