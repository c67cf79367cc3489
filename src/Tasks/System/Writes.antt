-- ===== src/Tasks/System/Writes.antt =====
-- The operations of the tasks database as changes of the instances' table.
use nestova.Base.{
  update, Bool-cases, inl, inr, ℕ, ◌≡◌, refl, Bool, ◌&&◌, List, Option, arith, find, Result, ok,
  err, OnSuccess, ◌==◌, any,
}
use nestova.Clock.{Time}
use nestova.Tasks.Schema.{Store, TaskInstance, InstanceKind, Error}
use nestova.Tasks.Instances.{respawn_if_standing, is_open_row}
use nestova.Tasks.Claims.{
  claim, can_claim, claimed, is_expired, reverted, sweep_expired_claims, penalize_lapsed_claim,
}
use nestova.Tasks.Closing.{
  complete, complete_and_award, skip, completed, skipped_row, can_close, required,
  returning-OnSuccess,
}
use nestova.Tasks.Trades.{accept, decline, cancel_trade, can_swap, swapped, sweep_expired_trades}
use nestova.Tasks.Overdue.{
  mark_pending_overdue, mark_pending_overdue_all, is_past_due, marked_overdue,
}
use nestova.Tasks.Trades.Rules.{accept_rule}
use nestova.Tasks.Writes.{
  Implies, is_open_instance, Change, claims as claims_row, completes as completes_row,
  skips as skips_row, reverts, lapses, swaps, ◌⟶◌, keep, change, WritesTo, same-⟶, insert-⟶,
  respawn-⟶, penalize_lapsed_claim-instances,
}
use nestova.Tasks.System.Untouched.{
  redeem-instances, fulfill-instances, deny-instances, cancel-instances, propose-instances,
  close_trade-instances,
}
use nestova.Tasks.System.{
  Operation, inserts, claims, completes, completes_and_awards, skips, marks_overdue,
  marks_all_overdue, sweeps_claims, redeems, fulfills, denies, cancels, proposes, accepts, declines,
  cancels_trade, sweeps_trades, after, step,
}

claim-⟶ :
    (now : Time) (household id member : ℕ) (s : Store)
    → OnSuccess (WritesTo s.instances) (claim now household id member s)
unfolding claim
claim-⟶ now household id member s =
    let hit = can_claim household id member in
    let written : s.instances ⟶ update hit (claimed now member) s.instances =
      change keep hit (claimed now member) (claims_row now member (λ i h. ground (arith, h))) in
    elim (Bool-cases (any hit s.instances)) [ inl e ↦ rw e written | inr e ↦ rw e tt ]

-- A row that is closed, and a new one if it was standing.
close-⟶ :
    (now : Time) (new_id : ℕ) (hit : TaskInstance → Bool) (close : TaskInstance → TaskInstance)
    (kind : InstanceKind) (task household : ℕ) (xs ys : List TaskInstance) (s : Store)
    → ys ≡ xs
    → s.instances ≡ update hit close ys
    → Change hit close
    → OnSuccess (WritesTo xs) (respawn_if_standing now new_id kind task household s)
close-⟶ now new_id hit close kind task household xs ys s e u c =
    respawn-⟶ now new_id kind task household xs s (rw (u, e) (change keep hit close c))

is_open_row-open : (household id : ℕ) → Implies (is_open_row household id) is_open_instance
is_open_row-open household id i h = ground arith

can_close-open :
    (household id : ℕ) (assignee : Option ℕ)
    → Implies (can_close household id assignee) is_open_instance
can_close-open household id assignee i h = ground arith

complete-⟶ :
    (now : Time) (entry_id instance_id household id by : ℕ) (at : Time) (s : Store)
    → OnSuccess (WritesTo s.instances) (complete now entry_id instance_id household id by at s)
unfolding complete
complete-⟶ now entry_id instance_id household id by at s =
    let s' = penalize_lapsed_claim now entry_id household id at s in
    let hit = is_open_row household id in
    returning-OnSuccess (WritesTo s.instances) (find hit s'.instances) _ _ λ i _.
      close-⟶ now instance_id hit (completed now by at) i.kind i.recurring_task household
        s.instances s'.instances _ (penalize_lapsed_claim-instances now entry_id household id at s)
        refl (completes_row now by at (is_open_row-open household id))

complete_and_award-⟶ :
    (now : Time) (entry_id award_id instance_id household id by : ℕ) (at : Time) (guard : Bool)
    (s : Store)
    → OnSuccess
        (WritesTo s.instances)
        (complete_and_award now entry_id award_id instance_id household id by at guard s)
unfolding complete_and_award
complete_and_award-⟶ now entry_id award_id instance_id household id by at guard s =
    let s' = penalize_lapsed_claim now entry_id household id at s in
    let hit = can_close household id (required guard by) in
    returning-OnSuccess (WritesTo s.instances) (find hit s'.instances) _ _ λ i _.
      close-⟶ now instance_id hit (completed now by at) i.kind i.recurring_task household
        s.instances s'.instances _ (penalize_lapsed_claim-instances now entry_id household id at s)
        refl (completes_row now by at (can_close-open household id (required guard by)))

skip-⟶ :
    (wall now : Time) (entry_id instance_id household id : ℕ) (assignee : Option ℕ) (s : Store)
    → OnSuccess (WritesTo s.instances) (skip wall now entry_id instance_id household id assignee s)
unfolding skip
skip-⟶ wall now entry_id instance_id household id assignee s =
    let s' = penalize_lapsed_claim now entry_id household id wall s in
    let hit = can_close household id assignee in
    returning-OnSuccess (WritesTo s.instances) (find hit s'.instances) _ _ λ i _.
      close-⟶ now instance_id hit (skipped_row now) i.kind i.recurring_task household s.instances
        s'.instances _ (penalize_lapsed_claim-instances now entry_id household id wall s) refl
        (skips_row now (can_close-open household id assignee))

accept-⟶ :
    (now : Time) (household id responder : ℕ) (at : Time) (s : Store)
    → OnSuccess (WritesTo s.instances) (accept now household id responder at s)
accept-⟶ now household id responder at s =
    accept_rule (WritesTo s.instances) now household id responder at s λ t _ _.
      change keep (can_swap household t) (swapped now t) (swaps now t (λ i h. ground (arith, h)))

after-⟶ :
    (s : Store) (r : Result Error Store)
    → OnSuccess (WritesTo s.instances) r
    → s.instances ⟶ (after s r).instances
after-⟶ s (ok t) h = h
after-⟶ s (err e) h = keep

-- What one operation writes to the instances.
pub step-⟶ : (op : Operation) (s : Store) → s.instances ⟶ (step op s).instances
unfolding step decline cancel_trade mark_pending_overdue mark_pending_overdue_all
    sweep_expired_trades sweep_expired_claims
step-⟶ (inserts now id task hh who due_on kind) s =
    after-⟶ s _ (insert-⟶ now id task hh who due_on kind s.instances s keep)
step-⟶ (claims now hh id who) s = after-⟶ s _ (claim-⟶ now hh id who s)
step-⟶ (completes now eid iid hh id by at) s = after-⟶ s _ (complete-⟶ now eid iid hh id by at s)
step-⟶ (completes_and_awards now eid aid iid hh id by at guard) s =
    after-⟶ s _ (complete_and_award-⟶ now eid aid iid hh id by at guard s)
step-⟶ (skips wall now eid iid hh id who) s = after-⟶ s _ (skip-⟶ wall now eid iid hh id who s)
step-⟶ (marks_overdue now hh as_of) s =
    change keep (λ i. i.household == hh && is_past_due as_of i) (marked_overdue now)
      (lapses now (λ i h. ground (arith, h)))
step-⟶ (marks_all_overdue now as_of) s =
    change keep (is_past_due as_of) (marked_overdue now) (lapses now (λ i h. ground (arith, h)))
step-⟶ (sweeps_claims now new_id as_of) s =
    change keep (is_expired as_of) (reverted now) (reverts now (λ i h. ground (arith, h)))
step-⟶ (redeems now eid r) s = same-⟶ (redeem-instances now eid r s)
step-⟶ (fulfills now hh id) s = same-⟶ (fulfill-instances now hh id s)
step-⟶ (denies now eid hh id reason) s = same-⟶ (deny-instances now eid hh id reason s)
step-⟶ (cancels now eid hh id who) s = same-⟶ (cancel-instances now eid hh id who s)
step-⟶ (proposes wall now hh p) s = same-⟶ (propose-instances wall now hh p s)
step-⟶ (accepts now hh id who at) s = after-⟶ s _ (accept-⟶ now hh id who at s)
step-⟶ (declines now hh id who) s = same-⟶ (close_trade-instances _ _ now s)
step-⟶ (cancels_trade now hh id who) s = same-⟶ (close_trade-instances _ _ now s)
step-⟶ (sweeps_trades now as_of) s = keep
