-- ===== src/Notify/Preferences.antt =====
-- Members' notification settings: internal/notify/adapter/preference_postgres.go and
-- internal/notify/app/settings.go. Which channels the program can deliver to is configured, and the
-- foreign key to the household's members is a test.
pub mod ReadBack
use nestova.Base.{
  ℕ, Bool, true, false, not, ◌&&◌, ◌||◌, List, [], ◌∷◌, Option, none, some, ◌==◌, if◌then◌else◌,
  any, find, update, Result, ok, err, ◌>>=◌, ◌>>◌, fail_if,
}
use nestova.Clock.{Time}
use nestova.Notify.Schema.{
  Channel, EventType, NotifyError, preference_not_found, storage_error, channel_not_deliverable,
  not_sms_ready, claim_expiring, claim_expired, task_due_soon, task_overdue, chore_trade_proposed,
  chore_trade_accepted, chore_trade_declined, chore_trade_expired, reward_redemption_requested,
  reward_redemption_resolved, restock_soon, subscription_renewal_due, is_sms, sms, in_app, email,
  push,
}
use nestova.Notify.Contacts.{
  E164Phone, ContactDirectory, MemberContact, ready_for_sms, parse_e164_phone, get_contact,
  set_phone, set_opted_in,
}

abbrev event_code : EventType → ℕ
event_code claim_expiring = 0
event_code claim_expired = 1
event_code task_due_soon = 2
event_code task_overdue = 3
event_code chore_trade_proposed = 4
event_code chore_trade_accepted = 5
event_code chore_trade_declined = 6
event_code chore_trade_expired = 7
event_code reward_redemption_requested = 8
event_code reward_redemption_resolved = 9
event_code restock_soon = 10
event_code subscription_renewal_due = 11

unfoldable pub same_event : EventType → EventType → Bool
same_event a b = event_code a == event_code b

abbrev channel_code : Channel → ℕ
channel_code push = 0
channel_code email = 1
channel_code in_app = 2
channel_code sms = 3

unfoldable pub same_channel : Channel → Channel → Bool
same_channel a b = channel_code a == channel_code b

pub record MemberPreference : Type 0 where
  pub member : ℕ
  pub household : ℕ
  pub event_type : EventType
  pub channel : Channel

abbrev pub is_preference : ℕ → EventType → MemberPreference → Bool
is_preference member event p = p.member == member && same_event p.event_type event

abbrev pub channel_of : Option MemberPreference → Result NotifyError Channel
channel_of none = err preference_not_found
channel_of (some p) = ok p.channel

unfoldable pub get_preference : ℕ → EventType → List MemberPreference → Result NotifyError Channel
get_preference member event prefs = channel_of (find (is_preference member event) prefs)

abbrev pub with_preference : Channel → MemberPreference → MemberPreference
with_preference channel p = record p { channel = channel }

-- `ON CONFLICT … DO UPDATE SET channel`
abbrev pub upserted : MemberPreference → List MemberPreference → List MemberPreference
upserted p prefs =
    if any (is_preference p.member p.event_type) prefs
    then update (is_preference p.member p.event_type) (with_preference p.channel) prefs
    else p ∷ prefs

unfoldable pub set_preference :
    (ℕ → ℕ → Bool)
    → MemberPreference
    → List MemberPreference
    → Result NotifyError (List MemberPreference)
set_preference in_household p prefs = do
  fail_if
      (not (any (is_preference p.member p.event_type) prefs)
        && not (in_household p.household p.member))
      storage_error
  ok (upserted p prefs)

unfoldable pub downgrade_channel :
    ℕ → Channel → Channel → List MemberPreference → List MemberPreference
downgrade_channel member from to prefs =
    update (λ p. p.member == member && same_channel p.channel from) (with_preference to) prefs

abbrev pub is_undeliverable : (Channel → Bool) → EventType × Channel → Bool
is_undeliverable deliverable u = not (deliverable u.1)

abbrev pub wants_sms : EventType × Channel → Bool
wants_sms u = is_sms u.1

-- A preference for SMS wants a member who is ready for it.
abbrev pub check_sms : ℕ → Bool → ContactDirectory → Result NotifyError (Unit {0})
check_sms member false db = ok tt
check_sms member true db = do
  contact ← get_contact member db
  fail_if (not (ready_for_sms contact)) not_sms_ready
  ok tt

module _ (deliverable : Channel → Bool) where
  unfoldable pub update_phone :
      ℕ → Option (List ℕ) → ContactDirectory → Result NotifyError ContactDirectory
  update_phone member none db = set_phone member none db
  update_phone member (some text) db = do
    fail_if (not (deliverable sms)) channel_not_deliverable
    phone ← parse_e164_phone text
    set_phone member (some phone) db

  unfoldable pub set_opt_in :
      Time → ℕ → Bool → ContactDirectory → Result NotifyError ContactDirectory
  set_opt_in now member opt_in db = do
    fail_if (opt_in && not (deliverable sms)) channel_not_deliverable
    set_opted_in now member opt_in db

  module _ (in_household : ℕ → ℕ → Bool) (household member : ℕ) where
    unfoldable pub set_each :
        List (EventType × Channel)
        → List MemberPreference
        → Result NotifyError (List MemberPreference)
    set_each [] prefs = ok prefs
    set_each ((event, channel) ∷ updates) prefs = do
      prefs' ←
          set_preference in_household
            (record {
              member = member;
              household = household;
              event_type = event;
              channel = channel;
            })
            prefs
      set_each updates prefs'

    unfoldable pub set_preferences :
        ContactDirectory
        → List (EventType × Channel)
        → List MemberPreference
        → Result NotifyError (List MemberPreference)
    set_preferences db updates prefs = do
      fail_if (any (is_undeliverable deliverable) updates) channel_not_deliverable
      check_sms member (any wants_sms updates) db
      set_each updates prefs
