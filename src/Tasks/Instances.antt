-- ===== src/Tasks/Instances.antt =====
-- Inserting task instances: internal/tasks/adapter/postgres.go (Insert, insertStandingInstance,
-- respawnIfStanding), with the constraints of the task_instance table. An operation is one
-- transaction: on an error the caller's store stays, as the deferred rollback leaves it. `now` is
-- the transaction's `now()`; new identifiers come from the uuid library and are arguments.
use nestova.Base.{
  ◌≡◌, OnSuccess, arith, false, ℕ, Bool, true, false, ◌&&◌, List, ◌∷◌, Option, none, some,
  if◌then◌else◌, ◌==◌, is_none, any, Result, ok, ◌>>◌, fail_if,
}
use nestova.Clock.{Time, day_of, at_day}
use nestova.Tasks.Schema.{
  Store, TaskInstance, RecurringTask, InstanceStatus, done, InstanceKind, scheduled, standing,
  Error, duplicate_instance, invalid_instance, database_error, is_open, is_pending, is_standing,
}

-- A scheduled instance has a due date, a standing one has none.
abbrev pub kind_matches_due_on : InstanceKind → Option Time → Bool
kind_matches_due_on scheduled due_on = if is_none due_on then false else true
kind_matches_due_on standing due_on = is_none due_on

-- The calendar date at midnight. The code writes the date in the zone as midnight UTC; here both are
-- instants of the one zone, so that only dates are compared with dates.
abbrev pub date_of : Time → Time
date_of t = at_day (day_of t) 0

abbrev map_due_on : Option Time → Option Time
map_due_on none = none
map_due_on (some t) = some (date_of t)

abbrev same_due_on : Option Time → Option Time → Bool
same_due_on (some a) (some b) = a == b
same_due_on _ _ = false

-- The unique constraint on (recurring_task_id, due_on); NULL differs from every date.
abbrev is_same_occurrence : TaskInstance → TaskInstance → Bool
is_same_occurrence new old =
    old.recurring_task == new.recurring_task && same_due_on old.due_on new.due_on

-- The partial index of the open standing instances.
abbrev pub is_open_standing : ℕ → TaskInstance → Bool
is_open_standing task i = i.recurring_task == task && is_standing i.kind && is_pending i.status

abbrev owns_task : TaskInstance → List RecurringTask → Bool
owns_task new = any λ t. t.id == new.recurring_task && t.household == new.household

-- The statement writes seven columns; the claim and completion columns start as NULL.
abbrev pub inserted : Time → TaskInstance → TaskInstance
inserted now inst = record inst {
  due_on = map_due_on inst.due_on;
  completed_at = none;
  completed_by = none;
  claimed_by = none;
  claimed_at = none;
  claim_expires_at = none;
  claim_warned_at = none;
  created_at = now;
  updated_at = now;
}

-- The check that a done row has a completion time, which a new row has not.
abbrev is_done : InstanceStatus → Bool
is_done done = true
is_done _ = false

unfoldable pub insert : Time → TaskInstance → Store → Result Error Store
insert now inst s =
    let row = inserted now inst in
    do
      fail_if (if kind_matches_due_on inst.kind inst.due_on then false else true) invalid_instance
      fail_if (is_done inst.status) database_error
      fail_if (any (λ i. i.id == row.id) s.instances) database_error
      fail_if (any (is_same_occurrence row) s.instances) duplicate_instance
      fail_if
          (is_open_standing row.recurring_task row
            && any (is_open_standing row.recurring_task) s.instances)
          database_error
      fail_if (if owns_task row s.tasks then false else true) database_error
      ok (record s { instances = row ∷ s.instances })

-- The instance that a caller of Insert builds: pending, with nothing claimed or completed.
abbrev pub new_instance : ℕ → ℕ → ℕ → Option ℕ → Option Time → InstanceKind → TaskInstance
new_instance id task household assignee due_on kind = record {
  id = id;
  recurring_task = task;
  household = household;
  assignee = assignee;
  due_on = due_on;
  status = InstanceStatus.pending;
  completed_at = none;
  completed_by = none;
  kind = kind;
  claimed_by = none;
  claimed_at = none;
  claim_expires_at = none;
  claim_warned_at = none;
  created_at = 0;
  updated_at = 0;
}

unfoldable pub respawn_if_standing : Time → ℕ → InstanceKind → ℕ → ℕ → Store → Result Error Store
respawn_if_standing now id scheduled task household s = ok s
respawn_if_standing now id standing task household s =
    insert now (new_instance id task household none none standing) s

-- `WHERE id = $1 AND household_id = $2`
abbrev pub is_row : ℕ → ℕ → TaskInstance → Bool
is_row household id i = i.id == id && i.household == household

abbrev pub is_open_row : ℕ → ℕ → TaskInstance → Bool
is_open_row household id i = is_row household id i && is_open i.status

-- What a successful insert guarantees: the identifier is new, the occurrence too, and a new standing
-- instance is the task's only open one.
pub insert_rule {ℓ} :
    (P : Store → Type ℓ) (now : Time) (inst : TaskInstance) (s : Store)
    → (kind_matches_due_on inst.kind inst.due_on ≡ true
        → any (λ i. i.id == inst.id) s.instances ≡ false
        → (is_open_standing inst.recurring_task (inserted now inst)
            && any (is_open_standing inst.recurring_task) s.instances)
          ≡ false
        → P (record s { instances = inserted now inst ∷ s.instances }))
    → OnSuccess P (insert now inst s)
unfolding insert
insert_rule P now inst s k = ground arith
