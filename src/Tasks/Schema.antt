-- ===== src/Tasks/Schema.antt =====
-- The tables of the tasks schema and their rows: internal/tasks/domain (entities.go, enums.go,
-- gamification.go, trade.go, claim.go). Identifiers are numbers, SQL NULL is `none`.
use Prim.Native.String.{String}
use nestova.Base.{ℕ, ◌*◌, ◌/◌, Bool, true, false, List, Option, ltb, if◌then◌else◌}
use nestova.Base.Int.{ℤ}
use nestova.Clock.{Time, hour}

pub data InstanceStatus : Type 0 where
  pending done skipped overdue : InstanceStatus

pub data InstanceKind : Type 0 where
  scheduled standing : InstanceKind

pub data TradeStatus : Type 0 where
  proposed accepted declined cancelled expired : TradeStatus

pub data RedemptionStatus : Type 0 where
  pending fulfilled denied cancelled : RedemptionStatus

-- The `source_type` of a point_ledger row.
pub data SourceType : Type 0 where
  task_instance claim_expiry redemption redemption_refund manual : SourceType

-- What the operations read of a recurring task.
pub record RecurringTask : Type 0 where
  pub id : ℕ
  pub household : ℕ
  pub title : String
  pub points : ℕ

pub record TaskInstance : Type 0 where
  pub id : ℕ
  pub recurring_task : ℕ
  pub household : ℕ
  pub assignee : Option ℕ
  pub due_on : Option Time
  pub status : InstanceStatus
  pub completed_at : Option Time
  pub completed_by : Option ℕ
  pub kind : InstanceKind
  pub claimed_by : Option ℕ
  pub claimed_at : Option Time
  pub claim_expires_at : Option Time
  pub claim_warned_at : Option Time
  pub created_at : Time
  pub updated_at : Time

pub record PointEntry : Type 0 where
  pub id : ℕ
  pub household : ℕ
  pub member : ℕ
  pub source_type : SourceType
  pub source : Option ℕ
  pub points : ℤ
  pub claim_started_at : Option Time
  pub created_at : Time

pub record Reward : Type 0 where
  pub id : ℕ
  pub household : ℕ
  pub name : String
  pub cost_points : ℕ
  pub quantity_available : Option ℕ
  pub active : Bool

pub record RewardRedemption : Type 0 where
  pub id : ℕ
  pub household : ℕ
  pub reward : ℕ
  pub member : ℕ
  pub status : RedemptionStatus
  pub denied_reason : Option String
  pub deep_link_signature_hash : Option ℕ
  pub created_at : Time
  pub updated_at : Time

pub record ChoreTrade : Type 0 where
  pub id : ℕ
  pub household : ℕ
  pub proposer : ℕ
  pub responder : ℕ
  pub offered : ℕ
  pub requested : ℕ
  pub status : TradeStatus
  pub created_at : Time
  pub resolved_at : Option Time
  pub expires_at : Time

-- A row of chore_trade_reservation, whose primary key is the instance.
pub record ChoreTradeReservation : Type 0 where
  pub instance_id : ℕ
  pub household : ℕ
  pub trade : ℕ

pub record Store : Type 0 where
  pub tasks : List RecurringTask
  pub instances : List TaskInstance
  pub ledger : List PointEntry
  pub rewards : List Reward
  pub redemptions : List RewardRedemption
  pub trades : List ChoreTrade
  pub reservations : List ChoreTradeReservation

-- The sentinel errors, and one for any other error of the database.
pub data Error : Type 0 where
  instance_not_found instance_in_terminal_state instance_already_claimed assignee_changed : Error
  duplicate_instance invalid_instance : Error
  reward_not_found insufficient_points reward_out_of_stock deep_link_already_redeemed : Error
  redemption_not_found redemption_not_pending : Error
  instance_not_tradeable trade_window_closed not_your_chore trade_not_pending : Error
  database_error : Error

-- `status IN ('pending', 'overdue')`
abbrev pub is_open : InstanceStatus → Bool
is_open InstanceStatus.pending = true
is_open overdue = true
is_open _ = false

abbrev pub is_pending : InstanceStatus → Bool
is_pending InstanceStatus.pending = true
is_pending _ = false

abbrev pub is_scheduled : InstanceKind → Bool
is_scheduled scheduled = true
is_scheduled standing = false

abbrev pub is_standing : InstanceKind → Bool
is_standing standing = true
is_standing scheduled = false

abbrev pub is_proposed : TradeStatus → Bool
is_proposed proposed = true
is_proposed _ = false

abbrev pub is_undecided : RedemptionStatus → Bool
is_undecided RedemptionStatus.pending = true
is_undecided _ = false

-- `status NOT IN ('cancelled', 'denied')`
abbrev pub holds_stock : RedemptionStatus → Bool
holds_stock RedemptionStatus.cancelled = false
holds_stock denied = false
holds_stock _ = true

abbrev pub same_source_type : SourceType → SourceType → Bool
same_source_type task_instance task_instance = true
same_source_type claim_expiry claim_expiry = true
same_source_type redemption redemption = true
same_source_type redemption_refund redemption_refund = true
same_source_type manual manual = true
same_source_type _ _ = false

-- How long a claim on an unassigned instance may stay open.
abbrev pub claim_window : ℕ
claim_window = 12 * hour

-- Half of the points, rounded down, and at least 1.
unfoldable pub claim_expiry_penalty : ℕ → ℕ
claim_expiry_penalty points = if ltb 1 (points / 2) then points / 2 else 1
