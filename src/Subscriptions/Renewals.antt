-- ===== src/Subscriptions/Renewals.antt =====
-- Renewals of subscriptions: internal/subscriptions/app/renewal.go and scheduler.go, on the table of
-- internal/subscriptions/adapter/postgres.go. A date is an instant at midnight UTC.
pub mod First
mod Examples
use nestova.Base.{
  ℕ, zero, suc, ◌+◌, ◌-◌, ◌*◌, Bool, true, false, not, ◌&&◌, ◌||◌, List, [], ◌∷◌, Option, none,
  some, leb, ltb, ◌==◌, if◌then◌else◌, any, select, update, Result, ok, err, ◌>>=◌, ◌>>◌, fail_if,
}
use nestova.Clock.{Time, ns_per_day, day_of, at_day}
use nestova.Calendar.{add_months_clamped}
use nestova.Subscriptions.{Cycle, weekly, monthly, yearly, custom}

pub data RenewalError : Type 0 where
  unsupported_renewal_cycle too_many_steps subscription_not_found reminder_failed : RenewalError

unfoldable pub next_renewal : Cycle → Time → Result RenewalError Time
next_renewal weekly from = ok (from + 7 * ns_per_day)
next_renewal monthly from = ok (add_months_clamped from 1)
next_renewal yearly from = ok (add_months_clamped from 12)
next_renewal custom from = err unsupported_renewal_cycle

abbrev pub max_advance_steps : ℕ
max_advance_steps = 10000

abbrev pub utc_date : Time → Time
utc_date t = at_day (day_of t) 0

unfoldable pub advance_steps : ℕ → Cycle → Time → Time → Result RenewalError Time
advance_steps zero cycle target current = err too_many_steps
advance_steps (suc steps) cycle target current = do
  let rest = next_renewal cycle current >>= λ next. advance_steps steps cycle target next
  if ltb current target then rest else ok current

unfoldable pub advance_past_due : Cycle → Time → Time → Result RenewalError Time
advance_past_due cycle next as_of = advance_steps max_advance_steps cycle (utc_date as_of) next

-- A row of the table, as far as renewals read it.
pub record RenewalRow : Type 0 where
  pub id : ℕ
  pub cycle : Cycle
  pub next_renewal_on : Time
  pub reminder_lead_days : ℕ
  pub active : Bool
  pub reminded_for : Option Time

abbrev is_custom : Cycle → Bool
is_custom custom = true
is_custom weekly = false
is_custom monthly = false
is_custom yearly = false

abbrev pub is_due_for_renewal : Time → RenewalRow → Bool
is_due_for_renewal as_of r =
    r.active
    && not (is_custom r.cycle)
    && leb (day_of r.next_renewal_on) (day_of as_of + r.reminder_lead_days)

-- The rows come in the order of the table, where the statement orders them by date.
unfoldable pub list_due_for_renewal : Time → List RenewalRow → List RenewalRow
list_due_for_renewal as_of rows = select (is_due_for_renewal as_of) rows

abbrev is_reminded : Time → Option Time → Bool
is_reminded occurrence none = false
is_reminded occurrence (some date) = date == occurrence

abbrev pub can_remind : ℕ → Time → RenewalRow → Bool
can_remind id occurrence r = r.id == id && r.active && not (is_reminded occurrence r.reminded_for)

-- Whether this call claimed the reminder.
unfoldable pub mark_reminded : ℕ → Time → List RenewalRow → List RenewalRow × Bool
mark_reminded id occurrence rows = (
  update (can_remind id (utc_date occurrence))
      (λ r. record r { reminded_for = some (utc_date occurrence) }) rows,
  any (can_remind id (utc_date occurrence)) rows,
)

unfoldable pub advance_renewal : ℕ → Time → List RenewalRow → Result RenewalError (List RenewalRow)
advance_renewal id next rows = do
  fail_if (not (any (λ r. r.id == id) rows)) subscription_not_found
  ok (
      update (λ r. r.id == id)
        (λ r. record r { next_renewal_on = utc_date next; reminded_for = none }) rows)

-- `enqueue` says whether the reminder for a row was enqueued. A claimed reminder stays claimed when
-- it was not.
abbrev pub raise_reminder :
    (RenewalRow → Bool)
    → RenewalRow
    → List RenewalRow × Bool
    → List RenewalRow × Result RenewalError ℕ
raise_reminder enqueue sub (rows, false) = (rows, ok 0)
raise_reminder enqueue sub (rows, true) = (rows, if enqueue sub then ok 1 else err reminder_failed)

abbrev pub advanced_rows :
    List RenewalRow
    → Result RenewalError (List RenewalRow)
    → List RenewalRow × Result RenewalError ℕ
advanced_rows rows (ok changed) = (changed, ok 0)
advanced_rows rows (err e) = (rows, err e)

unfoldable pub process :
    (RenewalRow → Bool)
    → Time
    → RenewalRow
    → List RenewalRow
    → List RenewalRow × Result RenewalError ℕ
process enqueue as_of sub rows =
    let advanced = advanced_rows rows (
      advance_past_due sub.cycle sub.next_renewal_on as_of >>= λ next.
      advance_renewal sub.id next rows) in
    if ltb sub.next_renewal_on (utc_date as_of)
    then advanced
    else raise_reminder enqueue sub (mark_reminded sub.id sub.next_renewal_on rows)

-- Reminders are counted, and the first error is kept.
abbrev pub tally : Result RenewalError ℕ → ℕ × Option RenewalError → ℕ × Option RenewalError
tally (ok n) (reminders, failed) = (n + reminders, failed)
tally (err e) (reminders, failed) = (reminders, some e)

unfoldable pub process_all :
    (RenewalRow → Bool)
    → Time
    → List RenewalRow
    → List RenewalRow
    → List RenewalRow × (ℕ × Option RenewalError)
process_all enqueue as_of [] rows = (rows, (0, none))
process_all enqueue as_of (sub ∷ subs) rows =
    let (rows', outcome) = process enqueue as_of sub rows in
    let (rows2, total) = process_all enqueue as_of subs rows' in (rows2, tally outcome total)

unfoldable pub run_renewals :
    (RenewalRow → Bool) → Time → List RenewalRow → List RenewalRow × (ℕ × Option RenewalError)
run_renewals enqueue as_of rows = process_all enqueue as_of (list_due_for_renewal as_of rows) rows
