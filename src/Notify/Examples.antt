-- ===== src/Notify/Examples.antt =====
-- Notifications that are routed, queued and delivered, at concrete times: internal/notify.
mod Settings
use Prim.Native.String.{String}
use nestova.Base.{
  ℕ, ◌+◌, ◌*◌, ◌≤◌, ◌<◌, ◌≡◌, refl, Bool, true, false, not, ◌&&◌, List, [], ◌∷◌, Option, none, some,
  ◌==◌, ltb, leb, if◌then◌else◌, any, count, update, select, All, length, map, Result, ok, err,
  ok_inj, subst, arith,
}
use nestova.Clock.{Time, hour, minute, ns_per_day}
use nestova.Notify.Schema.{
  Notification, Channel, push, email, in_app, sms, Status, pending, sent, failed, EventType,
  task_overdue, restock_soon, NotifyError, preference_not_found, delivery_failed, not_sms_ready,
  is_sms,
}
use nestova.Notify.QuietHours.{QuietHours, in_quiet_hours, end_after}
use nestova.Notify.QuietHours.Least.{IsClock, IsEndOfQuiet, end_after-IsEndOfQuiet}
use nestova.Notify.Outbox.{
  enqueue, claim_due, due_batch, order_by_schedule, insert_by_schedule, mark_sent, mark_failed,
}
use nestova.Notify.Dispatcher.{Dispatcher, DispatchState, deliver, deliver_all, run_once}
use nestova.Base.{All}
use nestova.Notify.Dispatcher.Deliveries.{HasOutcome}
use nestova.Notify.Dispatcher.Poll.{run_once-HasOutcome}
use nestova.Notify.Dispatcher.Steps.{Reach, run_once-Reach}
use nestova.Notify.Dispatcher.AtMostOnce.{IsAtMostOnce, Reach-IsAtMostOnce}
use nestova.Notify.Dispatcher.Drain.{Round, run_rounds, due_count, run_rounds-due}
use nestova.Notify.Dispatcher.Outcome.{CanFallBack}
use nestova.Notify.Contacts.{
  ContactDirectory, MemberContact, get_contact, set_phone, parse_e164_phone, set_opted_in,
}
use nestova.Notify.Contacts.Consent.{IsRephoned, set_phone-IsRephoned}
use nestova.Notify.Routing.{
  RoutingEnqueuer, route, resolve_channel, enqueue_routed, routed, sms_send,
}
use nestova.Notify.Routing.Safety.{IsSafe, enqueue_routed-IsSafe}
use nestova.Notify.Routing.Withdrawal.{Withdraws, opts_out, Withdraws-stops}
use nestova.Notify.Preferences.{
  MemberPreference, same_event, get_preference, set_preferences, set_each, set_preference,
}
use nestova.Notify.Preferences.ReadBack.{IsSaved, set_preferences-IsSaved}

-- From 22:00 to 7:00.
abbrev pub night : QuietHours
night = record { start = some (22 * hour); end = some (7 * hour) }

-- 23:30 on day 100.
abbrev pub late : Time
late = 100 * ns_per_day + 23 * hour + 30 * minute

late_end : end_after night late ≡ 101 * ns_per_day + 7 * hour
unfolding end_after
late_end = refl

end_after-IsEndOfQuiet_example : IsEndOfQuiet night late (end_after night late)
unfolding in_quiet_hours
end_after-IsEndOfQuiet_example = end_after-IsEndOfQuiet night late (omega arith) (omega arith) refl

abbrev pub texted : Notification
texted = record {
  id = 1;
  household = 1;
  member = some 7;
  channel = sms;
  title = "Dishes are overdue";
  body = "";
  scheduled_for = 50;
  status = pending;
  sent_at = none;
  source_type = none;
  source = none;
  event_type = none;
  created_at = 10;
}

abbrev pub shown : Notification
shown = record texted { id = 2; channel = in_app; scheduled_for = 20 }

-- Every text message fails, and the app shows everything.
abbrev sender_for : Channel → Option (Notification → Bool)
sender_for sms = some (λ n. false)
sender_for in_app = some (λ n. true)
sender_for push = none
sender_for email = none

abbrev dispatcher : Dispatcher
dispatcher = record {
  senders = sender_for;
  batch_size = 1;
  accepts = λ n. true;
  new_id = λ id. id + 100;
}

abbrev waiting : DispatchState
waiting = record { outbox = texted ∷ shown ∷ []; attempts = [] }

-- The earliest is claimed first.
first_poll : (run_once dispatcher 60 waiting).0.attempts ≡ record shown { status = sent } ∷ []
unfolding run_once claim_due due_batch order_by_schedule insert_by_schedule select deliver
    deliver_all
first_poll = refl

waiting-IsAtMostOnce : IsAtMostOnce (waiting, [])
unfolding count
waiting-IsAtMostOnce i = ground arith

polled : Reach dispatcher (waiting, []) ((run_once dispatcher 60 waiting).0, [])
polled = run_once-Reach dispatcher 60 waiting []

Reach-IsAtMostOnce_example : IsAtMostOnce ((run_once dispatcher 60 waiting).0, [])
Reach-IsAtMostOnce_example =
    Reach-IsAtMostOnce dispatcher (waiting, []) ((run_once dispatcher 60 waiting).0, [])
      waiting-IsAtMostOnce polled

run_once-HasOutcome_example :
    All
      (HasOutcome dispatcher 60 (run_once dispatcher 60 waiting).0.outbox)
      (claim_due 60 1 waiting.outbox).0
run_once-HasOutcome_example = run_once-HasOutcome dispatcher 60 waiting waiting-IsAtMostOnce

-- Two polls, with another notification that comes in before the first.
abbrev rounds : List Round
rounds =
    record { now = 60; arrivals = record texted { id = 3; scheduled_for = 55 } ∷ [] }
    ∷ record { now = 70; arrivals = [] }
    ∷ []

run_rounds-due_example : due_count 50 (run_rounds dispatcher rounds waiting).outbox ≡ 0
unfolding count
run_rounds-due_example =
    run_rounds-due dispatcher 50 rounds waiting (omega arith) (omega arith) (omega arith)

-- The copy of the failed text message waits in the app.
copied : map (λ n. n.id) (deliver dispatcher 60 texted waiting).outbox ≡ 101 ∷ 1 ∷ 2 ∷ []
unfolding deliver enqueue mark_failed any update
copied = refl
