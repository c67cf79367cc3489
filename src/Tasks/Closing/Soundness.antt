-- ===== src/Tasks/Closing/Soundness.antt =====
-- The ledger under the operations of internal/tasks/adapter/postgres.go.
use nestova.Base.{ℕ, ◌+◌, inl, inr, Bool, List, [], ◌∷◌, Option, arith, Option-cases, find}
use nestova.Clock.{Time}
use nestova.Tasks.Schema.{
  Store, RecurringTask, TaskInstance, InstanceKind, scheduled, standing, PointEntry,
}
use nestova.Tasks.Ledger.{ExpiredClaimRow}
use nestova.Tasks.Ledger.Soundness.{IsSound, StoreSound, Soundly, penalty-IsSound, award-IsSound}
use nestova.Tasks.Instances.{is_open_row, insert, respawn_if_standing}
use nestova.Tasks.Claims.{
  claim, sweep_expired_claims, penalize_lapsed_claim, lapsed_claim, penalize_all,
}
use nestova.Tasks.Closing.{
  complete, complete_and_award, skip, returning-OnSuccess, required, can_close,
}

pub insert-Sound :
    (now : Time) (inst : TaskInstance) (s : Store) → StoreSound s → Soundly (insert now inst s)
unfolding insert
insert-Sound now inst s v = ground arith

respawn-Sound :
    (now : Time) (id : ℕ) (kind : InstanceKind) (task household : ℕ) (s : Store)
    → StoreSound s
    → Soundly (respawn_if_standing now id kind task household s)
unfolding respawn_if_standing
respawn-Sound now id scheduled task household s v = v
respawn-Sound now id standing task household s v = insert-Sound now _ s v

pub claim-Sound :
    (now : Time) (household id member : ℕ) (s : Store)
    → StoreSound s
    → Soundly (claim now household id member s)
unfolding claim
claim-Sound now household id member s v = ground arith

penalize-Sound :
    (now : Time) (entry_id household id : ℕ) (at : Time) (s : Store)
    → StoreSound s
    → StoreSound (penalize_lapsed_claim now entry_id household id at s)
unfolding penalize_lapsed_claim
penalize-Sound now entry_id household id at s v =
    elim (Option-cases (lapsed_claim household id at s)) [
      | inl e ↦ rw (e, penalize_lapsed_claim) v
      | inr ((row, points), e) ↦
          rw (e, penalize_lapsed_claim) (penalty-IsSound now entry_id row _ s.ledger v)
    ]

pub complete-Sound :
    (now : Time) (entry_id instance_id household id by : ℕ) (at : Time) (s : Store)
    → StoreSound s
    → Soundly (complete now entry_id instance_id household id by at s)
unfolding complete
complete-Sound now entry_id instance_id household id by at s v =
    let s' = penalize_lapsed_claim now entry_id household id at s in
    returning-OnSuccess StoreSound (find (is_open_row household id) s'.instances) _ _ λ i _.
      respawn-Sound now instance_id i.kind i.recurring_task household _
        (penalize-Sound now entry_id household id at s v)

pub complete_and_award-Sound :
    (now : Time) (entry_id award_id instance_id household id by : ℕ) (at : Time) (guard : Bool)
    (s : Store)
    → StoreSound s
    → Soundly (complete_and_award now entry_id award_id instance_id household id by at guard s)
unfolding complete_and_award
complete_and_award-Sound now entry_id award_id instance_id household id by at guard s v =
    let s' = penalize_lapsed_claim now entry_id household id at s in
    returning-OnSuccess StoreSound (find (can_close household id (required guard by)) s'.instances)
      _ _
      λ i _. respawn-Sound now instance_id i.kind i.recurring_task household _ (
        award-IsSound now award_id household by id i.recurring_task s'.tasks s'.ledger
          (penalize-Sound now entry_id household id at s v))

pub skip-Sound :
    (wall now : Time) (entry_id instance_id household id : ℕ) (assignee : Option ℕ) (s : Store)
    → StoreSound s
    → Soundly (skip wall now entry_id instance_id household id assignee s)
unfolding skip
skip-Sound wall now entry_id instance_id household id assignee s v =
    let s' = penalize_lapsed_claim now entry_id household id wall s in
    returning-OnSuccess StoreSound (find (can_close household id assignee) s'.instances) _ _ λ i _.
      respawn-Sound now instance_id i.kind i.recurring_task household _
        (penalize-Sound now entry_id household id wall s v)

penalize_all-Sound :
    (now : Time) (new_id : ℕ → ℕ) (n : ℕ) (tasks : List RecurringTask) (rows : List ExpiredClaimRow)
    (ledger : List PointEntry)
    → IsSound ledger
    → IsSound (penalize_all now new_id n tasks rows ledger).0
unfolding penalize_all
penalize_all-Sound now new_id n tasks [] ledger v = v
penalize_all-Sound now new_id n tasks (row ∷ rows) ledger v =
    penalize_all-Sound now new_id (n + 1) tasks rows _
      (penalty-IsSound now (new_id n) row _ ledger v)

pub sweep-Sound :
    (now : Time) (new_id : ℕ → ℕ) (as_of : Time) (s : Store)
    → StoreSound s
    → StoreSound (sweep_expired_claims now new_id as_of s).0
unfolding sweep_expired_claims
sweep-Sound now new_id as_of s v = penalize_all-Sound now new_id 0 s.tasks _ s.ledger v
