-- ===== src/Notify/Outbox.antt =====
-- The outbox: internal/notify/adapter/postgres.go. The rows of the notification table, and the
-- constraints of the table other than its key as a test that an inserted row passes.
pub mod Claiming
use nestova.Base.{
  ℕ, zero, suc, Bool, true, false, ◌&&◌, List, [], ◌∷◌, map, Option, none, some, leb, ◌==◌,
  if◌then◌else◌, any, select, update, Result, ok, err, ◌>>◌, fail_if,
}
use nestova.Clock.{Time}
use nestova.Notify.Schema.{
  Notification, Status, pending, sent, failed, NotifyError, notification_not_found, storage_error,
  is_pending_status,
}

abbrev pub is_id : ℕ → Notification → Bool
is_id id n = n.id == id

unfoldable pub enqueue :
    (Notification → Bool)
    → Time
    → Notification
    → List Notification
    → Result NotifyError (List Notification)
enqueue accepts now n rows = do
  let row = record n { status = pending; sent_at = none; event_type = none; created_at = now }
  fail_if (any (is_id n.id) rows) storage_error
  fail_if (if accepts row then false else true) storage_error
  ok (row ∷ rows)

abbrev pub is_due : Time → Notification → Bool
is_due now n = is_pending_status n.status && leb n.scheduled_for now

-- `ORDER BY scheduled_for`
unfoldable pub insert_by_schedule : Notification → List Notification → List Notification
insert_by_schedule n [] = n ∷ []
insert_by_schedule n (m ∷ rows) =
    let rest = insert_by_schedule n rows in
    if leb n.scheduled_for m.scheduled_for then n ∷ m ∷ rows else m ∷ rest

unfoldable pub order_by_schedule : List Notification → List Notification
order_by_schedule [] = []
order_by_schedule (n ∷ rows) = insert_by_schedule n (order_by_schedule rows)

-- `LIMIT`
abbrev pub take {ℓ} : {A : Type ℓ} → ℕ → List A → List A
take zero xs = []
take (suc k) [] = []
take (suc k) (x ∷ xs) = x ∷ take k xs

abbrev pub is_among : List Notification → Notification → Bool
is_among batch n = any (λ c. c.id == n.id) batch

abbrev pub marked : Status → Notification → Notification
marked status n = record n { status = status }

-- The rows that one statement claims.
unfoldable pub due_batch : Time → ℕ → List Notification → List Notification
due_batch now limit rows = take limit (order_by_schedule (select (is_due now) rows))

-- The claimed rows come back in the order of the schedule, where the statement promises none.
unfoldable pub claim_due : Time → ℕ → List Notification → List Notification × List Notification
claim_due now limit rows =
    let batch = due_batch now limit rows in
    (map (marked sent) batch, update (is_among batch) (marked sent) rows)

unfoldable pub mark_sent : Time → ℕ → List Notification → Result NotifyError (List Notification)
mark_sent now id rows = do
  fail_if (if any (is_id id) rows then false else true) notification_not_found
  ok (update (is_id id) (λ n. record n { status = sent; sent_at = some now }) rows)

unfoldable pub mark_failed : ℕ → List Notification → Result NotifyError (List Notification)
mark_failed id rows = do
  fail_if (if any (is_id id) rows then false else true) notification_not_found
  ok (update (is_id id) (marked failed) rows)
