-- ===== src/UnifiedCalendar/Contents.antt =====
-- How often an item is in the sources of the unified calendar: internal/calendar/app/unified.go.
use nestova.Base.{
  ℕ, ◌+◌, ◌≡◌, ◌∙◌, sym, refl, ap, Bool, List, [], ◌∷◌, ◌++◌, map, Option, none, some, Result, ok,
  err, if◌then◌else◌, Bool-cases, bind-ok, ok_inj, count, count-append, arith,
}
use nestova.Clock.{Time}
use nestova.Tasks.Schema.{TaskInstance, InstanceStatus, overdue}
use nestova.UnifiedCalendar.{
  CalendarItem, CalendarError, list_failed, task_not_found, get_failed, CalendarSubscription,
  UnifiedCalendarService, task_item, renewal_item, cons_ok, titled, project_renewals, renewal_items,
  instance_item, instance_items, task_items,
}

pub count-mapped {ℓ} :
    {A : Type ℓ} (q : CalendarItem → Bool) (f : A → CalendarItem) (xs : List A)
    → count q (map f xs) ≡ count (λ x. q (f x)) xs
unfolding count
count-mapped q f [] = refl
count-mapped q f (x ∷ xs) = ground (arith, Bool-cases (q (f x)), count-mapped q f xs)

module _ (q : CalendarItem → Bool) (colors : List (ℕ × List ℕ)) where
  -- A chore with a due date and a title passes the test or not, and another has no item.
  abbrev pub chore_count : TaskInstance → Option Time → Result CalendarError (List ℕ) → ℕ
  chore_count i none title = 0
  chore_count i (some due) (err e) = 0
  chore_count i (some due) (ok title) = if q (task_item colors i due title) then 1 else 0

  unfoldable pub chores_count : UnifiedCalendarService → List TaskInstance → ℕ
  chores_count s [] = 0
  chores_count s (i ∷ instances) =
      chore_count i i.due_on (s.recurring_task_title i.recurring_task) + chores_count s instances

  unfoldable pub renewals_count : Time → Time → List CalendarSubscription → ℕ
  renewals_count from to [] = 0
  renewals_count from to (sub ∷ subs) =
      count (λ t. q (renewal_item colors sub t)) (project_renewals sub from to)
      + renewals_count from to subs

  pub count-renewal_items :
      (from to : Time) (subs : List CalendarSubscription)
      → count q (renewal_items colors from to subs) ≡ renewals_count from to subs
  unfolding renewal_items renewals_count count
  count-renewal_items from to [] = refl
  count-renewal_items from to (sub ∷ subs) =
      count-append q (map (renewal_item colors sub) (project_renewals sub from to))
        (renewal_items colors from to subs)
      ∙ omega (
        arith,
        count-mapped q (renewal_item colors sub) (project_renewals sub from to),
        count-renewal_items from to subs,
      )

  count-cons_ok :
      (a : CalendarItem) (rest : Result CalendarError (List CalendarItem))
      {items : List CalendarItem}
      → cons_ok a rest ≡ ok items
      → (others : List CalendarItem) × (rest ≡ ok others)
        × (count q items ≡ (if q a then 1 else 0) + count q others)
  unfolding count
  count-cons_ok a (err e) h = cc
  count-cons_ok a (ok others) h =
      (others, refl, ap (count q) (sym (ok_inj h)) ∙ ground (arith, Bool-cases (q a)))

  -- An item more or none, before the others.
  count-instance_item :
      (s : UnifiedCalendarService) (i : TaskInstance) (due_on : Option Time)
      (rest : Result CalendarError (List CalendarItem)) {items : List CalendarItem}
      → instance_item s colors i due_on rest ≡ ok items
      → (others : List CalendarItem) × (rest ≡ ok others)
        × (count q items
            ≡ chore_count i due_on (s.recurring_task_title i.recurring_task) + count q others)
  count-instance_item s i none rest {items} h = (items, h, omega arith)
  count-instance_item s i (some due) rest {items} h =
      by_title (s.recurring_task_title i.recurring_task) h
    where
      by_title :
          (title : Result CalendarError (List ℕ))
          → titled (task_item colors i due) title rest ≡ ok items
          → (others : List CalendarItem) × (rest ≡ ok others)
            × (count q items ≡ chore_count i (some due) title + count q others)
      by_title (ok title) e = count-cons_ok (task_item colors i due title) rest e
      by_title (err task_not_found) e = (items, e, omega arith)
      by_title (err get_failed) e = cc
      by_title (err list_failed) e = cc

  count-instance_items :
      (s : UnifiedCalendarService) (instances : List TaskInstance) {items : List CalendarItem}
      → instance_items s colors instances ≡ ok items
      → count q items ≡ chores_count s instances
  unfolding instance_items chores_count count
  count-instance_items s [] h = ap (count q) (sym (ok_inj h))
  count-instance_items s (i ∷ instances) h =
      let (others, rest, counted) =
        count-instance_item s i i.due_on (instance_items s colors instances) h in
      omega (arith, counted, count-instance_items s instances rest)

  -- The chores of both statuses are listed before their items are made.
  pub count-task_items :
      (s : UnifiedCalendarService) (from to : Time) (upcoming late : List TaskInstance)
      {items : List CalendarItem}
      → s.tasks InstanceStatus.pending from to ≡ ok upcoming
      → s.tasks overdue from to ≡ ok late
      → task_items s colors from to ≡ ok items
      → count q items ≡ chores_count s upcoming + chores_count s late
  unfolding task_items
  count-task_items s from to upcoming late {items} pending_listed overdue_listed h =
      let (some_upcoming, listed, a) = bind-ok (s.tasks InstanceStatus.pending from to) _ h in
      let (first, made, b) = bind-ok (instance_items s colors some_upcoming) _ a in
      let (some_late, listed', c) = bind-ok (s.tasks overdue from to) _ b in
      let (second, made', d) = bind-ok (instance_items s colors some_late) _ c in
      let same : some_upcoming ≡ upcoming = ok_inj (sym listed ∙ pending_listed) in
      let same' : some_late ≡ late = ok_inj (sym listed' ∙ overdue_listed) in
      let counted : count q items ≡ count q (first ++ second) = ap (count q) (sym (ok_inj d)) in
      let split = count-append q first second in
      let one = count-instance_items s some_upcoming made in
      let two = count-instance_items s some_late made' in
      counted ∙ split ∙ omega (arith, one, two, ap (chores_count s) same, ap (chores_count s) same')

-- The lists that the items of chores are made from.
pub task_items-listed :
    (s : UnifiedCalendarService) (colors : List (ℕ × List ℕ)) (from to : Time)
    {items : List CalendarItem}
    → task_items s colors from to ≡ ok items
    → (upcoming : List TaskInstance) × (late : List TaskInstance) × (s.tasks InstanceStatus.pending
          from to
        ≡ ok upcoming)
      × (s.tasks overdue from to ≡ ok late)
unfolding task_items
task_items-listed s colors from to h =
    let (upcoming, listed, a) = bind-ok (s.tasks InstanceStatus.pending from to) _ h in
    let (first, made, b) = bind-ok (instance_items s colors upcoming) _ a in
    let (late, listed', c) = bind-ok (s.tasks overdue from to) _ b in
    (upcoming, late, listed, listed')
