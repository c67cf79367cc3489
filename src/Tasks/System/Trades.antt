-- ===== src/Tasks/System/Trades.antt =====
-- Chore trades over a history.
use Prim.Native.String.{String}
use nestova.Base.{
  sym, OnSuccess-map, ℕ, ◌≡◌, ◌∙◌, refl, Option, none, arith, find, Result, ok, err, OnSuccess,
  Bool, Option-cases, subst,
}
use nestova.Tasks.Schema.{
  Store, TradeStatus, InstanceKind, scheduled, standing, RewardRedemption, Error, declined,
}
use nestova.Tasks.Instances.{insert, insert_rule, new_instance, respawn_if_standing, is_open_row}
use nestova.Tasks.Claims.{claim, sweep_expired_claims, penalize_lapsed_claim, lapsed_claim}
use nestova.Tasks.Closing.{
  complete, complete_and_award, skip, returning-OnSuccess, required, can_close,
}
use nestova.Tasks.Rewards.{redeem_with_debit, fulfill, deny, cancel, refund_redemption}
use nestova.Tasks.Trades.{decline, cancel_trade, sweep_expired_trades}
use nestova.Tasks.Trades.Reservations.{IsReserved, trading, StoreReserved}
use nestova.Tasks.Trades.Upkeep.{
  propose-Reserved, accept-Reserved, close_trade-Reserved, sweep-Reserved,
}
use nestova.Tasks.Overdue.{mark_pending_overdue, mark_pending_overdue_all}
use nestova.Tasks.System.{
  Operation, inserts, claims, completes, completes_and_awards, skips, marks_overdue,
  marks_all_overdue, sweeps_claims, redeems, fulfills, denies, cancels, proposes, accepts, declines,
  cancels_trade, sweeps_trades, after, after_redeem, step,
}

-- The trades and the reservations are those of the first store.
abbrev SameTrades : Store → Store → Type 0
SameTrades s t = trading t ≡ trading s

respawn-trades :
    (now id : ℕ) (kind : InstanceKind) (task household : ℕ) (s : Store)
    → OnSuccess (SameTrades s) (respawn_if_standing now id kind task household s)
unfolding respawn_if_standing
respawn-trades now id scheduled task household s = refl
respawn-trades now id standing task household s =
    insert_rule (SameTrades s) now (new_instance id task household none none standing) s
      λ _ _ _. refl

penalize-trades :
    (now entry_id household id at : ℕ) (s : Store)
    → trading (penalize_lapsed_claim now entry_id household id at s) ≡ trading s
unfolding penalize_lapsed_claim
penalize-trades now entry_id household id at s =
    ground (arith, Option-cases (lapsed_claim household id at s))

-- The respawn after a write that left the trades alone.
respawned-trades :
    (now id : ℕ) (kind : InstanceKind) (task household : ℕ) (s t : Store)
    → trading t ≡ trading s
    → OnSuccess (SameTrades s) (respawn_if_standing now id kind task household t)
respawned-trades now id kind task household s t e =
    OnSuccess-map (SameTrades s) (SameTrades t) _ (λ u h. h ∙ e)
      (respawn-trades now id kind task household t)

complete-trades :
    (now entry_id instance_id household id by at : ℕ) (s : Store)
    → OnSuccess (SameTrades s) (complete now entry_id instance_id household id by at s)
unfolding complete
complete-trades now entry_id instance_id household id by at s =
    let s' = penalize_lapsed_claim now entry_id household id at s in
    returning-OnSuccess (SameTrades s) (find (is_open_row household id) s'.instances) _ _ λ i _.
      respawned-trades now instance_id i.kind i.recurring_task household s _
        (penalize-trades now entry_id household id at s)

complete_and_award-trades :
    (now entry_id award_id instance_id household id by at : ℕ) (guard : Bool) (s : Store)
    → OnSuccess
        (SameTrades s)
        (complete_and_award now entry_id award_id instance_id household id by at guard s)
unfolding complete_and_award
complete_and_award-trades now entry_id award_id instance_id household id by at guard s =
    let s' = penalize_lapsed_claim now entry_id household id at s in
    returning-OnSuccess (SameTrades s)
      (find (can_close household id (required guard by)) s'.instances) _ _
      λ i _.
        respawned-trades now instance_id i.kind i.recurring_task household s _
          (penalize-trades now entry_id household id at s)

skip-trades :
    (wall now entry_id instance_id household id : ℕ) (assignee : Option ℕ) (s : Store)
    → OnSuccess (SameTrades s) (skip wall now entry_id instance_id household id assignee s)
unfolding skip
skip-trades wall now entry_id instance_id household id assignee s =
    let s' = penalize_lapsed_claim now entry_id household id wall s in
    returning-OnSuccess (SameTrades s) (find (can_close household id assignee) s'.instances) _ _
      λ i _.
        respawned-trades now instance_id i.kind i.recurring_task household s _
          (penalize-trades now entry_id household id wall s)

same-Reserved : (s t : Store) → StoreReserved s → trading t ≡ trading s → StoreReserved t
same-Reserved s t v e = subst IsReserved (sym e) v

after-Reserved :
    (s : Store) (r : Result Error Store)
    → StoreReserved s
    → OnSuccess StoreReserved r
    → StoreReserved (after s r)
after-Reserved s (ok t) v h = h
after-Reserved s (err e) v h = v

untouched :
    (s : Store) (r : Result Error Store)
    → StoreReserved s
    → OnSuccess (SameTrades s) r
    → StoreReserved (after s r)
untouched s (ok t) v h = same-Reserved s t v h
untouched s (err e) v h = v

claim-trades :
    (now household id member : ℕ) (s : Store)
    → OnSuccess (SameTrades s) (claim now household id member s)
unfolding claim
claim-trades now household id member s = ground arith

fulfill-trades :
    (now household id : ℕ) (s : Store) → OnSuccess (SameTrades s) (fulfill now household id s)
unfolding fulfill
fulfill-trades now household id s = ground arith

deny-trades :
    (now entry_id household id : ℕ) (reason : Option String) (s : Store)
    → OnSuccess (SameTrades s) (deny now entry_id household id reason s)
unfolding deny refund_redemption
deny-trades now entry_id household id reason s = ground arith

cancel-trades :
    (now entry_id household id member : ℕ) (s : Store)
    → OnSuccess (SameTrades s) (cancel now entry_id household id member s)
unfolding cancel refund_redemption
cancel-trades now entry_id household id member s = ground arith

redeem-trades :
    (now entry_id : ℕ) (r : RewardRedemption) (s : Store)
    → trading (after_redeem s (redeem_with_debit now entry_id r s)) ≡ trading s
unfolding redeem_with_debit
redeem-trades now entry_id r s = ground arith

insert-trades :
    (now id task household : ℕ) (who due_on : Option ℕ) (kind : InstanceKind) (s : Store)
    → OnSuccess (SameTrades s) (insert now (new_instance id task household who due_on kind) s)
insert-trades now id task household who due_on kind s =
    insert_rule (SameTrades s) now (new_instance id task household who due_on kind) s λ _ _ _. refl

pub step-Reserved : (op : Operation) (s : Store) → StoreReserved s → StoreReserved (step op s)
unfolding step decline cancel_trade mark_pending_overdue mark_pending_overdue_all
    sweep_expired_claims sweep_expired_trades
step-Reserved (inserts now id task hh who due_on kind) s v =
    untouched s _ v (insert-trades now id task hh who due_on kind s)
step-Reserved (claims now hh id who) s v = untouched s _ v (claim-trades now hh id who s)
step-Reserved (completes now eid iid hh id by at) s v =
    untouched s _ v (complete-trades now eid iid hh id by at s)
step-Reserved (completes_and_awards now eid aid iid hh id by at guard) s v =
    untouched s _ v (complete_and_award-trades now eid aid iid hh id by at guard s)
step-Reserved (skips wall now eid iid hh id who) s v =
    untouched s _ v (skip-trades wall now eid iid hh id who s)
step-Reserved (marks_overdue now hh as_of) s v = v
step-Reserved (marks_all_overdue now as_of) s v = v
step-Reserved (sweeps_claims now new_id as_of) s v = v
step-Reserved (redeems now eid r) s v =
    same-Reserved s (after_redeem s (redeem_with_debit now eid r s)) v (redeem-trades now eid r s)
step-Reserved (fulfills now hh id) s v = untouched s _ v (fulfill-trades now hh id s)
step-Reserved (denies now eid hh id reason) s v =
    untouched s _ v (deny-trades now eid hh id reason s)
step-Reserved (cancels now eid hh id who) s v = untouched s _ v (cancel-trades now eid hh id who s)
step-Reserved (proposes wall now hh p) s v =
    after-Reserved s _ v (propose-Reserved wall now hh p s v)
step-Reserved (accepts now hh id who at) s v =
    after-Reserved s _ v (accept-Reserved now hh id who at s v)
step-Reserved (declines now hh id who) s v =
    after-Reserved s _ v (close_trade-Reserved _ declined now s refl v)
step-Reserved (cancels_trade now hh id who) s v =
    after-Reserved s _ v (close_trade-Reserved _ TradeStatus.cancelled now s refl v)
step-Reserved (sweeps_trades now as_of) s v = sweep-Reserved now as_of s v
