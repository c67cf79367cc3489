-- ===== src/Tasks/Ledger.antt =====
-- The append-only point ledger: internal/tasks/adapter/gamification_postgres.go (Balance)
-- and the two statements of postgres.go that write to it. A row is added at the head of the list.
pub mod Soundness
use nestova.Base.{
  ℕ, Bool, ◌&&◌, List, [], ◌∷◌, Option, none, some, min, if◌then◌else◌, ◌==◌, is_key, any, find,
}
use nestova.Base.Int.{ℤ, pos, pos_part, ◌+ℤ◌, neg}
use nestova.Clock.{Time}
use nestova.Tasks.Schema.{
  PointEntry, SourceType, task_instance, claim_expiry, RecurringTask, same_source_type,
}

-- `SUM(points)` over a member's rows.
unfoldable pub balance : ℕ → ℕ → List PointEntry → ℤ
balance household member [] = pos 0
balance household member (e ∷ es) =
    if e.household == household && e.member == member
    then e.points +ℤ balance household member es
    else balance household member es

-- A row of kind `type` about `source`.
abbrev pub is_about : SourceType → ℕ → PointEntry → Bool
is_about type source e = same_source_type e.source_type type && is_key e.source source

-- A claim that ran out, as the sweep and the completion path read it.
pub record ExpiredClaimRow : Type 0 where
  pub instance_id : ℕ
  pub household : ℕ
  pub recurring_task : ℕ
  pub claimed_by : ℕ
  pub claimed_at : Time

abbrev pub penalty_entry : Time → ℕ → ExpiredClaimRow → ℕ → PointEntry
penalty_entry now id row penalty = record {
  id = id;
  household = row.household;
  member = row.claimed_by;
  source_type = claim_expiry;
  source = some row.instance_id;
  points = neg (pos penalty);
  claim_started_at = some row.claimed_at;
  created_at = now;
}

-- The unique index over claim_expiry rows: one penalty for a claim.
abbrev pub is_penalized : ExpiredClaimRow → List PointEntry → Bool
is_penalized row =
    any λ e. is_about claim_expiry row.instance_id e && is_key e.claim_started_at row.claimed_at

-- The penalty taken is at most the member's balance. The new ledger and the penalty.
unfoldable pub insert_claim_expiry_penalty :
    Time → ℕ → ExpiredClaimRow → ℕ → List PointEntry → List PointEntry × ℕ
insert_claim_expiry_penalty now id row wanted ledger =
    let penalty = min wanted (pos_part (balance row.household row.claimed_by ledger)) in
    if penalty == 0 then (ledger, 0) else (
      (if is_penalized row ledger then ledger else penalty_entry now id row penalty ∷ ledger),
      penalty,
    )

abbrev pub award_entry : Time → ℕ → ℕ → ℕ → ℕ → ℕ → PointEntry
award_entry now id household member instance_id points = record {
  id = id;
  household = household;
  member = member;
  source_type = task_instance;
  source = some instance_id;
  points = pos points;
  claim_started_at = none;
  created_at = now;
}

-- `INSERT … SELECT rt.points … WHERE rt.points > 0 ON CONFLICT DO NOTHING`: the task that is found,
-- if any, decides the points.
abbrev pub award_points :
    Time → ℕ → ℕ → ℕ → ℕ → Option RecurringTask → List PointEntry → List PointEntry
award_points now id household member instance_id none ledger = ledger
award_points now id household member instance_id (some task) ledger =
    if task.points == 0
    then ledger
    else (if any (is_about task_instance instance_id) ledger
        then ledger
        else award_entry now id household member instance_id task.points ∷ ledger)

unfoldable pub award :
    Time → ℕ → ℕ → ℕ → ℕ → ℕ → List RecurringTask → List PointEntry → List PointEntry
award now id household member instance_id task tasks =
    award_points now id household member instance_id
      (find (λ t. t.id == task && t.household == household) tasks)
