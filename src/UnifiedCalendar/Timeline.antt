-- ===== src/UnifiedCalendar/Timeline.antt =====
-- What the unified calendar lists: internal/calendar/app/unified.go (List).
use nestova.Base.{
  ℕ, ◌+◌, ◌≤◌, ◌≡◌, ◌∙◌, sym, ap, subst, Bool, false, List, [], ◌++◌, map, ok, ◌>>=◌, ltb,
  if◌then◌else◌, bind-ok, ok_inj, count, count-append, arith,
}
use nestova.Clock.{Time}
use nestova.UnifiedCalendar.{
  CalendarItem, CalendarSubscription, ExternalEvent, UnifiedCalendarService, event_item, task_items,
  renewal_items, merged_items, list_items, sort_stable,
}
use nestova.UnifiedCalendar.Order.{IsOrdered, sort-IsOrdered, count-sort}
use nestova.Tasks.Schema.{TaskInstance, InstanceStatus, overdue}
use nestova.UnifiedCalendar.Contents.{
  count-mapped, chores_count, renewals_count, count-renewal_items, count-task_items,
  task_items-listed,
}

-- The items of the sources in order of start and title: an item for each event, for each pending or
-- overdue chore with a due date and a title, and for each projected renewal of a subscription, and
-- no other.
pub record IsTimeline (s : UnifiedCalendarService) (from to : Time) (items : List CalendarItem)
    : Type 0 where
  pub colors : List (ℕ × List ℕ)
  pub events : List ExternalEvent
  pub upcoming : List TaskInstance
  pub late : List TaskInstance
  pub subs : List CalendarSubscription
  pub same_colors : s.members ≡ ok colors
  pub same_events : s.events from to ≡ ok events
  pub same_upcoming : s.tasks InstanceStatus.pending from to ≡ ok upcoming
  pub same_late : s.tasks overdue from to ≡ ok late
  pub same_subs : s.subs ≡ ok subs
  pub ordered : IsOrdered items
  pub counted :
      (q : CalendarItem → Bool)
      → count q items
        ≡ count (λ e. q (event_item e)) events
          + (chores_count q colors s upcoming + chores_count q colors s late)
          + renewals_count q colors from to subs

count-sorted :
    (q : CalendarItem → Bool) (xs ys zs items : List CalendarItem)
    → sort_stable (xs ++ (ys ++ zs)) ≡ items
    → count q items ≡ count q xs + count q ys + count q zs
count-sorted q xs ys zs items e =
    let sorted : count q items ≡ count q (xs ++ (ys ++ zs)) =
      ap (count q) (sym e) ∙ count-sort q (xs ++ (ys ++ zs)) in
    omega (arith, sorted, count-append q xs (ys ++ zs), count-append q ys zs)

-- A list that succeeds for a range that is not inverted has one item for each event of the range,
-- for each pending and each overdue chore of the range with a due date and a title, and for each
-- projected renewal of each subscription, and no other, in the order of starts and, at one start, of
-- titles.
pub list-IsTimeline :
    (s : UnifiedCalendarService) (from to : Time) (items : List CalendarItem)
    → from ≤ to
    → list_items s from to ≡ ok items
    → IsTimeline s from to items
unfolding list_items merged_items
list-IsTimeline s from to items range h =
    let straight : ltb to from ≡ false = ground (arith, range) in
    let listed : (merged_items s from to >>= λ items. ok (sort_stable items)) ≡ ok items =
      subst
        (λ b.
          (if b then ok [] else (merged_items s from to >>= λ items. ok (sort_stable items)))
          ≡ ok items)
        straight h in
    let (merged, made, last) = bind-ok (merged_items s from to) _ listed in
    let (colors, same_colors, a) = bind-ok s.members _ made in
    let (events, same_events, b) = bind-ok (s.events from to) _ a in
    let (tasks, same_tasks, c) = bind-ok (task_items s colors from to) _ b in
    let (subs, same_subs, d) = bind-ok s.subs _ c in
    let (upcoming, late, same_upcoming, same_late) =
      task_items-listed s colors from to same_tasks in
    let e : sort_stable (map event_item events ++ (tasks ++ renewal_items colors from to subs))
        ≡ items =
      ap sort_stable (ok_inj d) ∙ ok_inj last in
    record {
      colors = colors;
      events = events;
      upcoming = upcoming;
      late = late;
      subs = subs;
      same_colors = same_colors;
      same_events = same_events;
      same_upcoming = same_upcoming;
      same_late = same_late;
      same_subs = same_subs;
      ordered = subst IsOrdered e (sort-IsOrdered _);
      counted = λ q.
          let sorted =
            count-sorted q (map event_item events) tasks (renewal_items colors from to subs) items
              e in
          omega (
            arith,
            sorted,
            count-mapped q event_item events,
            count-task_items q colors s from to upcoming late same_upcoming same_late same_tasks,
            count-renewal_items q colors from to subs,
          );
    }
