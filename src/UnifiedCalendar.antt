-- ===== src/UnifiedCalendar.antt =====
-- The unified calendar: internal/calendar/app/unified.go. Its repositories are functions that may
-- fail. Texts are lists of their bytes, and the zero time is 0.
pub mod Order
pub mod Renewals
pub mod Contents
pub mod Timeline
mod Examples
use nestova.Base.{
  ℕ, zero, suc, ◌+◌, Bool, true, false, not, ◌&&◌, ◌||◌, List, [], ◌∷◌, ◌++◌, map, length, Option,
  none, some, Result, ok, err, ◌>>=◌, ◌-◌, leb, ltb, ◌==◌, if◌then◌else◌,
}
use nestova.Clock.{Time}
use nestova.Tasks.Schema.{TaskInstance, InstanceStatus, overdue}
use nestova.Subscriptions.{Cycle}
use nestova.Subscriptions.Renewals.{RenewalError, next_renewal}

pub data CalendarItemKind : Type 0 where
  kind_event kind_task kind_renewal : CalendarItemKind

pub data CalendarError : Type 0 where
  list_failed task_not_found get_failed : CalendarError

pub record CalendarItem : Type 0 where
  pub kind : CalendarItemKind
  pub title : List ℕ
  pub start : Time
  pub end : Time
  pub all_day : Bool
  pub source_id : ℕ
  pub member_color : List ℕ

pub record ExternalEvent : Type 0 where
  pub id : ℕ
  pub title : List ℕ
  pub starts_at : Time
  pub ends_at : Time
  pub all_day : Bool

pub record CalendarSubscription : Type 0 where
  pub id : ℕ
  pub name : List ℕ
  pub payer : Option ℕ
  pub cycle : Cycle
  pub next_renewal_on : Time

-- The repositories of one household. The titles are those of the recurring tasks.
pub record UnifiedCalendarService : Type 0 where
  pub events : Time → Time → Result CalendarError (List ExternalEvent)
  pub tasks : InstanceStatus → Time → Time → Result CalendarError (List TaskInstance)
  pub recurring_task_title : ℕ → Result CalendarError (List ℕ)
  pub subs : Result CalendarError (List CalendarSubscription)
  pub members : Result CalendarError (List (ℕ × List ℕ))

abbrev pub or_else : Option (List ℕ) → Option (List ℕ) → Option (List ℕ)
or_else none other = other
or_else (some color) other = some color

-- The map keeps the last entry of a member.
abbrev pub member_colors : List (ℕ × List ℕ) → ℕ → Option (List ℕ)
member_colors [] id = none
member_colors ((member, color) ∷ rest) id =
    or_else (member_colors rest id) (if member == id then some color else none)

abbrev pub color_or_empty : Option (List ℕ) → List ℕ
color_or_empty none = []
color_or_empty (some color) = color

abbrev pub color_for : Option ℕ → List (ℕ × List ℕ) → List ℕ
color_for none colors = []
color_for (some member) colors = color_or_empty (member_colors colors member)

-- Go's order of strings.
abbrev pub text_less : List ℕ → List ℕ → Bool
text_less xs [] = false
text_less [] (y ∷ ys) = true
text_less (x ∷ xs) (y ∷ ys) = let rest = text_less xs ys in ltb x y || (x == y && rest)

abbrev pub less : CalendarItem → CalendarItem → Bool
less a b = if a.start == b.start then text_less a.title b.title else ltb a.start b.start

-- sort.SliceStable.
abbrev pub insert_stable : CalendarItem → List CalendarItem → List CalendarItem
insert_stable a [] = a ∷ []
insert_stable a (b ∷ items) =
    let rest = insert_stable a items in if less b a then b ∷ rest else a ∷ b ∷ items

unfoldable pub sort_stable : List CalendarItem → List CalendarItem
sort_stable [] = []
sort_stable (a ∷ items) = insert_stable a (sort_stable items)

abbrev pub event_item : ExternalEvent → CalendarItem
event_item e = record {
  kind = kind_event;
  title = e.title;
  start = e.starts_at;
  end = e.ends_at;
  all_day = e.all_day;
  source_id = e.id;
  member_color = [];
}

abbrev pub task_item : List (ℕ × List ℕ) → TaskInstance → Time → List ℕ → CalendarItem
task_item colors i due title = record {
  kind = kind_task;
  title = title;
  start = due;
  end = 0;
  all_day = true;
  source_id = i.id;
  member_color = color_for i.assignee colors;
}

abbrev pub renewal_item : List (ℕ × List ℕ) → CalendarSubscription → Time → CalendarItem
renewal_item colors sub occ = record {
  kind = kind_renewal;
  title = sub.name;
  start = occ;
  end = 0;
  all_day = true;
  source_id = sub.id;
  member_color = color_for sub.payer colors;
}

abbrev pub cons_ok {ℓ} :
    {A : Type ℓ} → A → Result CalendarError (List A) → Result CalendarError (List A)
cons_ok a (ok rest) = ok (a ∷ rest)
cons_ok a (err e) = err e

-- A task without its template is skipped.
abbrev pub titled :
    (List ℕ → CalendarItem)
    → Result CalendarError (List ℕ)
    → Result CalendarError (List CalendarItem)
    → Result CalendarError (List CalendarItem)
titled item (ok title) rest = cons_ok (item title) rest
titled item (err task_not_found) rest = rest
titled item (err get_failed) rest = err get_failed
titled item (err list_failed) rest = err list_failed

abbrev pub max_renewal_occurrences : ℕ
max_renewal_occurrences = 366

abbrev pub no_renewal {ℓ} : {A : Type ℓ} → Result RenewalError Time → List A → List A
no_renewal (ok next) occurrences = occurrences
no_renewal (err e) occurrences = []

abbrev pub after_next : Result RenewalError Time → (Time → List Time) → List Time
after_next (ok next) rest = rest next
after_next (err e) rest = []

-- The loop, with the number of occurrences that are still wanted. Each round of it advances.
unfoldable pub project_from : ℕ → Cycle → Time → Time → ℕ → Time → List Time
project_from zero cycle from to wanted occ = []
project_from (suc fuel) cycle from to wanted occ =
    let later =
      after_next (next_renewal cycle occ) (λ next. project_from fuel cycle from to wanted next) in
    let counted =
      after_next (next_renewal cycle occ)
        (λ next. project_from fuel cycle from to (wanted - 1) next) in
    if ltb 0 wanted && leb occ to then (if ltb occ from then later else occ ∷ counted) else []

unfoldable pub project_renewals : CalendarSubscription → Time → Time → List Time
project_renewals sub from to =
    no_renewal (next_renewal sub.cycle sub.next_renewal_on)
      (project_from (to + 1) sub.cycle from to max_renewal_occurrences sub.next_renewal_on)

unfoldable pub renewal_items :
    List (ℕ × List ℕ) → Time → Time → List CalendarSubscription → List CalendarItem
renewal_items colors from to [] = []
renewal_items colors from to (sub ∷ subs) =
    map (renewal_item colors sub) (project_renewals sub from to)
    ++ renewal_items colors from to subs

module _ (s : UnifiedCalendarService) where
  abbrev pub instance_item :
      List (ℕ × List ℕ)
      → TaskInstance
      → Option Time
      → Result CalendarError (List CalendarItem)
      → Result CalendarError (List CalendarItem)
  instance_item colors i none rest = rest
  instance_item colors i (some due) rest =
      titled (task_item colors i due) (s.recurring_task_title i.recurring_task) rest

  -- The titles are fetched again where the code caches them.
  unfoldable pub instance_items :
      List (ℕ × List ℕ) → List TaskInstance → Result CalendarError (List CalendarItem)
  instance_items colors [] = ok []
  instance_items colors (i ∷ instances) =
      instance_item colors i i.due_on (instance_items colors instances)

  unfoldable pub task_items :
      List (ℕ × List ℕ) → Time → Time → Result CalendarError (List CalendarItem)
  task_items colors from to = do
    upcoming ← s.tasks InstanceStatus.pending from to
    first ← instance_items colors upcoming
    late ← s.tasks overdue from to
    second ← instance_items colors late
    ok (first ++ second)

  unfoldable pub merged_items : Time → Time → Result CalendarError (List CalendarItem)
  merged_items from to = do
    colors ← s.members
    events ← s.events from to
    tasks ← task_items colors from to
    subs ← s.subs
    ok (map event_item events ++ (tasks ++ renewal_items colors from to subs))

  unfoldable pub list_items : Time → Time → Result CalendarError (List CalendarItem)
  list_items from to =
      if ltb to from then ok [] else (merged_items from to >>= λ items. ok (sort_stable items))
