-- ===== src/Notify/Schema.antt =====
-- What is notified: internal/notify/domain/notification.go, enums.go and contact.go.
use Prim.Native.String.{String}
use nestova.Base.{ℕ, Bool, true, false, Option}
use nestova.Clock.{Time}

pub data Channel : Type 0 where
  push email in_app sms : Channel

pub data Status : Type 0 where
  pending sent failed cancelled : Status

pub data EventType : Type 0 where
  claim_expiring claim_expired task_due_soon task_overdue chore_trade_proposed chore_trade_accepted
        chore_trade_declined chore_trade_expired reward_redemption_requested
        reward_redemption_resolved restock_soon subscription_renewal_due :
      EventType

-- Without a member the whole household is notified. The empty texts of the source are absent values.
pub record Notification : Type 0 where
  pub id : ℕ
  pub household : ℕ
  pub member : Option ℕ
  pub channel : Channel
  pub title : String
  pub body : String
  pub scheduled_for : Time
  pub status : Status
  pub sent_at : Option Time
  pub source_type : Option String
  pub source : Option ℕ
  pub event_type : Option EventType
  pub created_at : Time

pub data NotifyError : Type 0 where
  notification_not_found contact_not_found phone_required preference_not_found not_sms_ready
        no_member delivery_failed channel_not_deliverable invalid_phone storage_error :
      NotifyError

abbrev pub is_pending_status : Status → Bool
is_pending_status pending = true
is_pending_status other = false

-- Channels whose terminal failure falls back to the app.
abbrev pub has_fallback : Channel → Bool
has_fallback sms = true
has_fallback email = true
has_fallback push = false
has_fallback in_app = false

abbrev pub is_sms : Channel → Bool
is_sms sms = true
is_sms push = false
is_sms email = false
is_sms in_app = false
