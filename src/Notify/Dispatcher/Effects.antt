-- ===== src/Notify/Dispatcher/Effects.antt =====
-- What the statements of the outbox do to the pending rows: internal/notify/adapter/postgres.go
-- and the deliveries of internal/notify/app/dispatcher.go.
use nestova.Base.{
  ℕ, ◌≤◌, ◌≡◌, ◌⊎◌, refl, Bool, false, ◌&&◌, List, ◌∷◌, none, any, count, Bool-cases, arith, inl,
  inr, count-update, count-update-le, ok,
}
use nestova.Clock.{Time}
use nestova.Notify.Schema.{Notification, pending}
use nestova.Notify.Outbox.{is_id, is_among, due_batch, claim_due, enqueue, mark_sent, mark_failed}
use nestova.Notify.Outbox.Claiming.{is_pending_row}
use nestova.Notify.Dispatcher.{or_keep}

-- A test of what never changes of a row.
abbrev pub Test : Type 0
Test = ℕ → Time → Bool

abbrev pub rows_with : Test → List Notification → ℕ
rows_with r rows = count (λ n. r n.id n.scheduled_for) rows

abbrev pub pending_with : Test → List Notification → ℕ
pending_with r rows = count (λ n. is_pending_row n && r n.id n.scheduled_for) rows

module _ (r : Test) (now : Time) (id : ℕ) (rows : List Notification) where
  pub pending-mark_sent :
      pending_with r (or_keep rows (mark_sent now id rows)) ≤ pending_with r rows
  unfolding mark_sent
  pending-mark_sent = elim (Bool-cases (any (is_id id) rows)) [
    | inl e ↦ rw e (count-update-le _ (is_id id) _ rows (λ n _ h. absurd (ground (arith, h))))
    | inr e ↦ rw e (omega arith)
  ]

  pub rows-mark_sent : rows_with r (or_keep rows (mark_sent now id rows)) ≡ rows_with r rows
  unfolding mark_sent
  rows-mark_sent = elim (Bool-cases (any (is_id id) rows)) [
    | inl e ↦ rw e (count-update _ (is_id id) _ rows (λ n _. refl))
    | inr e ↦ rw e refl
  ]

  pub pending-mark_failed :
      pending_with r (or_keep rows (mark_failed id rows)) ≤ pending_with r rows
  unfolding mark_failed
  pending-mark_failed = elim (Bool-cases (any (is_id id) rows)) [
    | inl e ↦ rw e (count-update-le _ (is_id id) _ rows (λ n _ h. absurd (ground (arith, h))))
    | inr e ↦ rw e (omega arith)
  ]

  pub rows-mark_failed : rows_with r (or_keep rows (mark_failed id rows)) ≡ rows_with r rows
  unfolding mark_failed
  rows-mark_failed = elim (Bool-cases (any (is_id id) rows)) [
    | inl e ↦ rw e (count-update _ (is_id id) _ rows (λ n _. refl))
    | inr e ↦ rw e refl
  ]

pub rows-claim_due :
    (r : Test) (now : Time) (limit : ℕ) (rows : List Notification)
    → rows_with r (claim_due now limit rows).1 ≡ rows_with r rows
unfolding claim_due
rows-claim_due r now limit rows =
    count-update _ (is_among (due_batch now limit rows)) _ rows (λ n _. refl)

-- An insert either changes nothing or adds one row with a new identifier, which is pending.
pub enqueue-cases :
    (accepts : Notification → Bool) (now : Time) (n : Notification) (rows : List Notification)
    → (or_keep rows (enqueue accepts now n rows) ≡ rows)
      ⊎ ((any (is_id n.id) rows ≡ false)
          × (enqueue accepts now n rows
              ≡ ok (
                  record n { status = pending; sent_at = none; event_type = none; created_at = now }
                  ∷ rows)))
unfolding enqueue
enqueue-cases accepts now n rows =
    let row = record n { status = pending; sent_at = none; event_type = none; created_at = now } in
    elim (Bool-cases (any (is_id n.id) rows)) [
      | inl e ↦ inl (rw e refl)
      | inr e ↦ elim (Bool-cases (accepts row)) [
        | inl a ↦ inr (e, rw (e, a) refl)
        | inr a ↦ inl (rw (e, a) refl)
      ]
    ]
