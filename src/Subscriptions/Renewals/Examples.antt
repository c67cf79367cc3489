-- ===== src/Subscriptions/Renewals/Examples.antt =====
-- A weekly subscription that is past due: internal/subscriptions/app/renewal.go.
use nestova.Base.{◌*◌, ◌+◌, ◌≡◌, refl, arith, List, [], ◌∷◌, true, none, ok, update, any, select}
use nestova.Clock.{Time, ns_per_day, hour}
use nestova.Subscriptions.{weekly}
use nestova.Subscriptions.Renewals.{
  utc_date, advance_past_due, RenewalRow, run_renewals, process_all, process, list_due_for_renewal,
  mark_reminded,
}
use nestova.Subscriptions.Renewals.First.{IsFirstRenewal, advance_past_due-IsFirstRenewal}

abbrev due : Time
due = 1000 * ns_per_day

abbrev today : Time
today = 1015 * ns_per_day + 9 * hour

advance_past_due-IsFirstRenewal_example :
    (renewal : Time) × (advance_past_due weekly due today ≡ ok renewal)
    × IsFirstRenewal weekly due (utc_date today) renewal
advance_past_due-IsFirstRenewal_example =
    advance_past_due-IsFirstRenewal weekly due today tt (omega arith) (omega arith)

abbrev rows : List RenewalRow
rows =
    record {
      id = 1;
      cycle = weekly;
      next_renewal_on = due + 17 * ns_per_day;
      reminder_lead_days = 3;
      active = true;
      reminded_for = none;
    }
    ∷ []

-- The reminder is raised once.
reminded_once :
    (run_renewals (λ r. true) today (run_renewals (λ r. true) today rows).0).1 ≡ (0, none)
unfolding run_renewals process_all process list_due_for_renewal mark_reminded update any select
reminded_once = refl
