-- ===== src/Tasks/Overdue.antt =====
-- The overdue sweep: internal/tasks/adapter/postgres.go (MarkPendingOverdue, MarkPendingOverdueAll).
use nestova.Base.{ℕ, Bool, false, ◌&&◌, List, Option, none, some, ltb, ◌==◌, count, select, update}
use nestova.Clock.{Time}
use nestova.Tasks.Schema.{Store, TaskInstance, overdue, is_pending, is_scheduled}
use nestova.Tasks.Instances.{date_of}

-- `due_on < $1`, false at NULL.
abbrev is_due_before : Time → Option Time → Bool
is_due_before t none = false
is_due_before t (some due_on) = ltb due_on t

abbrev pub is_past_due : Time → TaskInstance → Bool
is_past_due as_of i =
    is_pending i.status && is_scheduled i.kind && is_due_before (date_of as_of) i.due_on

abbrev pub marked_overdue : Time → TaskInstance → TaskInstance
marked_overdue now i = record i { status = overdue; updated_at = now }

-- One household; the number of rows.
unfoldable pub mark_pending_overdue : Time → ℕ → Time → Store → Store × ℕ
mark_pending_overdue now household as_of s =
    let hit = λ (i : TaskInstance). i.household == household && is_past_due as_of i in
    (record s { instances = update hit (marked_overdue now) s.instances }, count hit s.instances)

-- Every household; the rows.
unfoldable pub mark_pending_overdue_all : Time → Time → Store → Store × List TaskInstance
mark_pending_overdue_all now as_of s = (
  record s { instances = update (is_past_due as_of) (marked_overdue now) s.instances },
  select (is_past_due as_of) s.instances,
)
