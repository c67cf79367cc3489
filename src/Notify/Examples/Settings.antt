-- ===== src/Notify/Examples/Settings.antt =====
-- Routing, contacts and preferences at concrete data: internal/notify/app/routing.go and settings.go.
use nestova.Base.{
  ℕ, ◌+◌, ◌*◌, ◌≡◌, refl, true, false, List, [], ◌∷◌, none, some, any, find, update, Result, ok,
  err, ok_inj, subst, arith,
}
use nestova.Clock.{hour, ns_per_day}
use nestova.Notify.Schema.{
  Notification, Channel, in_app, sms, EventType, task_overdue, restock_soon, NotifyError,
  not_sms_ready, is_sms,
}
use nestova.Notify.QuietHours.{QuietHours, in_quiet_hours, end_after}
use nestova.Notify.QuietHours.Least.{IsClock}
use nestova.Notify.Contacts.{
  ContactDirectory, MemberContact, get_contact, parse_e164_phone, set_opted_in,
}
use nestova.Notify.Routing.{
  RoutingEnqueuer, route, resolve_channel, enqueue_routed, routed, sms_send,
}
use nestova.Notify.Routing.Safety.{IsSafe, enqueue_routed-IsSafe}
use nestova.Notify.Routing.Withdrawal.{opts_out, Withdraws-stops}
use nestova.Notify.Preferences.{
  MemberPreference, same_event, set_preferences, set_each, set_preference,
}
use nestova.Notify.Examples.{night, late, texted, shown}

-- +15551234567
abbrev number : List ℕ
number = 43 ∷ 49 ∷ 53 ∷ 53 ∷ 53 ∷ 49 ∷ 50 ∷ 51 ∷ 52 ∷ 53 ∷ 54 ∷ 55 ∷ []

abbrev directory : ContactDirectory
directory = record {
  members = 7 ∷ 8 ∷ [];
  contacts = record { member = 7; phone_e164 = some number; sms_opted_in_at = some 5 } ∷ [];
}

abbrev contact : MemberContact
contact = record { member_id = 7; phone = some number; sms_opted_in = true }

directory_read : get_contact 7 directory ≡ ok contact
unfolding get_contact parse_e164_phone any find
directory_read = refl

abbrev quiet_directory : ContactDirectory
quiet_directory = record directory {
  contacts = record { member = 7; phone_e164 = some number; sms_opted_in_at = none } ∷ [];
}

opted_out_now : set_opted_in 60 7 false directory ≡ ok quiet_directory
unfolding set_opted_in any update
opted_out_now = refl

abbrev enqueuer : ContactDirectory → RoutingEnqueuer Notification
enqueuer db = record {
  forward = λ n. n;
  preferences = λ member event. ok sms;
  contacts = λ member. get_contact member db;
  quiet_hours = λ household. ok night;
}

abbrev overdue : Notification
overdue = record shown { scheduled_for = late; event_type = some task_overdue }

night_clocks :
    (household : ℕ) (q : QuietHours)
    → Path (Result NotifyError QuietHours) (ok night) (ok q)
    → IsClock q.start × IsClock q.end
night_clocks household q h =
    subst (λ r. IsClock r.start × IsClock r.end) (ok_inj h) (omega arith, omega arith)

enqueue_routed-IsSafe_example :
    (n' : Notification) × (enqueue_routed (enqueuer directory) overdue ≡ n')
    × IsSafe (enqueuer directory) overdue n'
enqueue_routed-IsSafe_example = enqueue_routed-IsSafe (enqueuer directory) night_clocks overdue refl

-- The text message waits for the morning.
deferred : (enqueue_routed (enqueuer directory) overdue).scheduled_for ≡ 101 * ns_per_day + 7 * hour
unfolding enqueue_routed route resolve_channel get_contact any find parse_e164_phone in_quiet_hours
    end_after
deferred = refl

Withdraws-stops_example :
    (sms_send (λ phone body. ok tt) (λ m. get_contact m quiet_directory) texted ≡ err not_sms_ready)
    × (is_sms texted.channel ≡ false
        → is_sms (routed (enqueuer quiet_directory) texted.member texted.event_type texted).channel
          ≡ false)
Withdraws-stops_example =
    Withdraws-stops (enqueuer quiet_directory) (λ phone body. ok tt) 60 7 contact directory
      quiet_directory directory_read (opts_out opted_out_now) (λ m. refl) texted refl

abbrev choices : List (EventType × Channel)
choices = (task_overdue, sms) ∷ (restock_soon, in_app) ∷ []

abbrev chosen : List MemberPreference
chosen =
    record { member = 7; household = 1; event_type = restock_soon; channel = in_app }
    ∷ record { member = 7; household = 1; event_type = task_overdue; channel = sms }
    ∷ []

saved : set_preferences (λ c. true) (λ household member. true) 1 7 directory choices [] ≡ ok chosen
unfolding set_preferences set_each set_preference get_contact parse_e164_phone any find same_event
saved = refl
