-- ===== src/UnifiedCalendar/Examples.antt =====
-- A week of one household: an outing, a chore without its template, a chore, and a weekly box.
use nestova.Base.{
  ℕ, ◌≡◌, ◌*◌, refl, false, List, [], ◌∷◌, none, some, Result, ok, err, ◌==◌, if◌then◌else◌, arith,
}
use nestova.Clock.{Time, ns_per_day}
use nestova.Tasks.Schema.{TaskInstance, InstanceStatus, scheduled, overdue}
use nestova.Subscriptions.{weekly}
use nestova.UnifiedCalendar.{
  CalendarItem, CalendarSubscription, CalendarError, task_not_found, ExternalEvent,
  UnifiedCalendarService, max_renewal_occurrences, event_item, task_item, project_renewals,
  sort_stable, renewal_items, instance_items, task_items, merged_items, list_items,
}
use nestova.UnifiedCalendar.Renewals.{IsProjection, project_renewals-IsProjection}
use nestova.UnifiedCalendar.Timeline.{IsTimeline, list-IsTimeline}

abbrev box : CalendarSubscription
box = record {
  id = 1;
  name = 98 ∷ [];
  payer = some 7;
  cycle = weekly;
  next_renewal_on = 3 * ns_per_day;
}

project_renewals-IsProjection_example :
    IsProjection weekly
      (3 * ns_per_day)
      (4 * ns_per_day)
      (11 * ns_per_day)
      max_renewal_occurrences
      (project_renewals box (4 * ns_per_day) (11 * ns_per_day))
project_renewals-IsProjection_example =
    project_renewals-IsProjection box (4 * ns_per_day) (11 * ns_per_day) tt

abbrev outing : ExternalEvent
outing = record { id = 2; title = 111 ∷ []; starts_at = 5; ends_at = 6; all_day = false }

abbrev chore : ℕ → ℕ → TaskInstance
chore id task = record {
  id = id;
  recurring_task = task;
  household = 1;
  assignee = some 7;
  due_on = some 4;
  status = InstanceStatus.pending;
  completed_at = none;
  completed_by = none;
  kind = scheduled;
  claimed_by = none;
  claimed_at = none;
  claim_expires_at = none;
  claim_warned_at = none;
  created_at = 0;
  updated_at = 0;
}

abbrev home : UnifiedCalendarService
home = record {
  events = λ from to. ok (outing ∷ []);
  tasks = by_status;
  recurring_task_title = λ task. if task == 20 then ok (99 ∷ []) else err task_not_found;
  subs = ok [];
  members = ok ((7, 114 ∷ []) ∷ []);
}
  where
    by_status : InstanceStatus → Time → Time → Result CalendarError (List TaskInstance)
    by_status overdue from to = ok []
    by_status _ from to = ok (chore 3 20 ∷ chore 4 21 ∷ [])

abbrev listed : List CalendarItem
listed = task_item ((7, 114 ∷ []) ∷ []) (chore 3 20) 4 (99 ∷ []) ∷ event_item outing ∷ []

listed_lem : list_items home 1 9 ≡ ok listed
unfolding list_items merged_items task_items instance_items renewal_items sort_stable
listed_lem = refl

list-IsTimeline_example : IsTimeline home 1 9 listed
list-IsTimeline_example = list-IsTimeline home 1 9 listed (omega arith) listed_lem
