-- ===== src/Notify/Routing.antt =====
-- Which channel a notification takes: internal/notify/app/routing.go, and the sender of
-- internal/notify/adapter/sms_notification_sender.go. The ports are functions that may fail. The
-- zone of the quiet hours is the clock's.
pub mod Safety
pub mod Withdrawal
use Prim.Native.String.{String, ◌++◌}
use nestova.Base.{
  ℕ, Bool, true, false, Option, none, some, if◌then◌else◌, Result, ok, err, ◌>>=◌, ◌>>◌, fail_if,
  or_fail, not,
}
use nestova.Notify.Schema.{
  Notification, Channel, push, email, in_app, sms, EventType, NotifyError, preference_not_found,
  no_member, not_sms_ready,
}
use nestova.Notify.QuietHours.{QuietHours, in_quiet_hours, end_after}
use nestova.Notify.Contacts.{E164Phone, MemberContact, ready_for_sms}

pub record RoutingEnqueuer {ℓ} (A : Type ℓ) : Type ℓ where
  pub forward : Notification → A
  pub preferences : ℕ → EventType → Result NotifyError Channel
  pub contacts : ℕ → Result NotifyError MemberContact
  pub quiet_hours : ℕ → Result NotifyError QuietHours

abbrev pub is_preference_not_found : NotifyError → Bool
is_preference_not_found preference_not_found = true
is_preference_not_found other = false

module _ {ℓ} {A : Type ℓ} (e : RoutingEnqueuer A) where
  -- An SMS preference holds while the member is ready for SMS.
  abbrev pub by_preference : ℕ → Result NotifyError Channel → Result NotifyError Channel
  by_preference member (err failed) =
      if is_preference_not_found failed then ok in_app else err failed
  by_preference member (ok sms) = do
    contact ← e.contacts member
    ok (if ready_for_sms contact then sms else in_app)
  by_preference member (ok other) = ok other

  unfoldable pub resolve_channel : ℕ → EventType → Result NotifyError Channel
  resolve_channel member event = by_preference member (e.preferences member event)

  abbrev pub defer : Notification → Result NotifyError QuietHours → Notification
  defer n (err failed) = record n { channel = in_app }
  defer n (ok q) =
      if in_quiet_hours q n.scheduled_for
      then record n { scheduled_for = end_after q n.scheduled_for }
      else n

  abbrev pub with_channel : Notification → Result NotifyError Channel → Notification
  with_channel n (err failed) = n
  with_channel n (ok sms) = defer (record n { channel = sms }) (e.quiet_hours n.household)
  with_channel n (ok other) = record n { channel = other }

  unfoldable pub route : ℕ → EventType → Notification → Notification
  route member event n = with_channel n (resolve_channel member event)

  -- Without a member or an event type a notification keeps the channel it came with.
  abbrev pub routed : Option ℕ → Option EventType → Notification → Notification
  routed (some member) (some event) n = route member event n
  routed (some member) none n = n
  routed none event n = n

  unfoldable pub enqueue_routed : Notification → A
  enqueue_routed n = e.forward (routed n.member n.event_type n)

-- An empty body adds nothing to the title.
abbrev message_body : String → String → String
message_body title String.[] = title
message_body title (String.◌∷◌ c body) = title ++ ": " ++ String.◌∷◌ c body

abbrev pub addressed :
    Option E164Phone → (E164Phone → Result NotifyError (Unit {0})) → Result NotifyError (Unit {0})
addressed none provider = err not_sms_ready
addressed (some phone) provider = provider phone

-- The text message of a notification, to the number that is on file when it is sent. The provider
-- is an argument.
unfoldable pub sms_send :
    (E164Phone → String → Result NotifyError (Unit {0}))
    → (ℕ → Result NotifyError MemberContact)
    → Notification
    → Result NotifyError (Unit {0})
sms_send provider contacts n = do
  member ← or_fail n.member no_member
  contact ← contacts member
  fail_if (not (ready_for_sms contact)) not_sms_ready
  addressed contact.phone (λ phone. provider phone (message_body n.title n.body))
