-- ===== src/Notify/Dispatcher.antt =====
-- The dispatcher: internal/notify/app/dispatcher.go. Logs and metrics are left out.
pub mod Effects
pub mod Steps
pub mod AtMostOnce
pub mod Drain
pub mod Outcome
pub mod Deliveries
pub mod Poll
use nestova.Base.{
  ℕ, Bool, true, false, List, [], ◌∷◌, length, Option, none, some, if◌then◌else◌, Result, ok, err,
}
use nestova.Clock.{Time}
use nestova.Notify.Schema.{Notification, Channel, push, email, in_app, sms, pending, NotifyError}
use nestova.Notify.Outbox.{enqueue, claim_due, mark_sent, mark_failed}

-- A sender says whether a notification was delivered. `new_id` is the identifier that a
-- notification's in-app copy gets, and `accepts` the outbox's constraints.
pub record Dispatcher : Type 0 where
  pub senders : Channel → Option (Notification → Bool)
  pub batch_size : ℕ
  pub accepts : Notification → Bool
  pub new_id : ℕ → ℕ

-- The table, and the notifications handed to a sender so far.
pub record DispatchState : Type 0 where
  pub outbox : List Notification
  pub attempts : List Notification

-- An error of the outbox is logged only.
abbrev pub or_keep : List Notification → Result NotifyError (List Notification) → List Notification
or_keep rows (ok changed) = changed
or_keep rows (err e) = rows

abbrev pub fallback_copy : Dispatcher → Time → Notification → Notification
fallback_copy d now n = record {
  id = d.new_id n.id;
  household = n.household;
  member = n.member;
  channel = in_app;
  title = n.title;
  body = n.body;
  scheduled_for = now;
  status = pending;
  sent_at = none;
  source_type = n.source_type;
  source = n.source;
  event_type = none;
  created_at = 0;
}

abbrev pub fallback_to_in_app :
    Dispatcher → Time → Notification → List Notification → List Notification
fallback_to_in_app d now n rows = or_keep rows (enqueue d.accepts now (fallback_copy d now n) rows)

abbrev pub fallback_for_channel :
    Dispatcher → Time → Notification → Channel → List Notification → List Notification
fallback_for_channel d now n sms rows = fallback_to_in_app d now n rows
fallback_for_channel d now n email rows = fallback_to_in_app d now n rows
fallback_for_channel d now n push rows = rows
fallback_for_channel d now n in_app rows = rows

abbrev pub fail_delivery : Dispatcher → Time → Notification → List Notification → List Notification
fail_delivery d now n rows =
    let rows' = fallback_for_channel d now n n.channel rows in
    or_keep rows' (mark_failed n.id rows')

abbrev pub deliver_with :
    Option (Notification → Bool) → Dispatcher → Time → Notification → DispatchState → DispatchState
deliver_with none d now n s = record s { outbox = fail_delivery d now n s.outbox }
deliver_with (some send) d now n s = record {
  outbox =
      if send n
      then or_keep s.outbox (mark_sent now n.id s.outbox)
      else fail_delivery d now n s.outbox;
  attempts = n ∷ s.attempts;
}

unfoldable pub deliver : Dispatcher → Time → Notification → DispatchState → DispatchState
deliver d now n s = deliver_with (d.senders n.channel) d now n s

unfoldable pub deliver_all : Dispatcher → Time → List Notification → DispatchState → DispatchState
deliver_all d now [] s = s
deliver_all d now (n ∷ batch) s = deliver_all d now batch (deliver d now n s)

-- One poll at the instant `now`: the number of claimed notifications comes with the state.
unfoldable pub run_once : Dispatcher → Time → DispatchState → DispatchState × ℕ
run_once d now s =
    let (batch, rows) = claim_due now d.batch_size s.outbox in
    (deliver_all d now batch (record s { outbox = rows }), length batch)
