-- ===== src/Notify/Dispatcher/Outcome.antt =====
-- What a delivery leaves: internal/notify/app/dispatcher.go (deliver, fallbackToInApp, markFailed).
use nestova.Base.{
  ℕ, ◌≡◌, ◌∙◌, refl, Bool, true, false, List, [], ◌∷◌, Option, none, some, ◌==◌, if◌then◌else◌, any,
  find, Bool-cases, arith, find-update, find-test,
}
use nestova.Clock.{Time}
use nestova.Notify.Schema.{Notification, sent, failed, has_fallback}
use nestova.Notify.Outbox.{is_id, marked, mark_sent, mark_failed}
use nestova.Notify.Dispatcher.{Dispatcher, DispatchState, or_keep, fallback_copy}

abbrev pub row_of : ℕ → List Notification → Option Notification
row_of id rows = find (is_id id) rows

-- The in-app copy as the outbox stores it.
abbrev pub stored_copy : Dispatcher → Time → Notification → Notification
stored_copy d now n = record (fallback_copy d now n) { created_at = now }

-- What the channel's sender says of a notification, where there is one.
abbrev pub is_delivered_by : Option (Notification → Bool) → Notification → Bool
is_delivered_by none n = false
is_delivered_by (some send) n = send n

-- A row that was delivered is stamped.
abbrev pub IsDelivered : Dispatcher → Time → Notification → Notification → DispatchState → Type 0
IsDelivered d now n row s' =
    (is_delivered_by (d.senders n.channel) n ≡ true)
    × (row_of n.id s'.outbox ≡ some (record row { status = sent; sent_at = some now }))

-- A row that no sender delivered is marked, and an SMS or an e-mail has its copy in the app.
abbrev pub IsFailed : Dispatcher → Time → Notification → Notification → DispatchState → Type 0
IsFailed d now n row s' =
    (is_delivered_by (d.senders n.channel) n ≡ false)
    × (row_of n.id s'.outbox ≡ some (marked failed row))
    × (has_fallback n.channel ≡ true
        → row_of (d.new_id n.id) s'.outbox ≡ some (stored_copy d now n))

pub any-find :
    (id : ℕ) (rows : List Notification) {row : Notification}
    → row_of id rows ≡ some row
    → any (is_id id) rows ≡ true
unfolding find any
any-find id [] h = cc
any-find id (n ∷ rows) {row} h =
    ground (arith, h, Bool-cases (n.id == id), any-find id rows {row = row})

pub find-mark_failed :
    (i id : ℕ) (rows : List Notification)
    → any (is_id id) rows ≡ true
    → {row : Notification} → row_of i rows ≡ some row
    → row_of i (or_keep rows (mark_failed id rows))
      ≡ some (if row.id == id then marked failed row else row)
unfolding mark_failed
find-mark_failed i id rows here e =
    rw here (find-update (is_id i) (is_id id) (marked failed) rows (λ n. refl) ∙ (rw e refl))

pub find-mark_sent :
    (now : Time) (id : ℕ) (rows : List Notification) {row : Notification}
    → row_of id rows ≡ some row
    → row_of id (or_keep rows (mark_sent now id rows))
      ≡ some (record row { status = sent; sent_at = some now })
unfolding mark_sent
find-mark_sent now id rows {row} e = rw (any-find id rows e) (
    find-update (is_id id) (is_id id) (λ n. record n { status = sent; sent_at = some now }) rows
      (λ n. refl)
    ∙ (rw (e, find-test (is_id id) rows e) refl))

module _ (d : Dispatcher) (now : Time) (n : Notification) where
  -- The outbox takes the copy: its identifier is new and it meets the constraints.
  abbrev pub CanFallBack : DispatchState → Type 0
  CanFallBack s =
      (any (is_id (d.new_id n.id)) s.outbox ≡ false)
      × (d.accepts (stored_copy d now n) ≡ true)
      × (d.new_id n.id == n.id ≡ false)
