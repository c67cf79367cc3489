-- ===== src/Notify/Dispatcher/Deliveries.antt =====
-- What the delivery of one notification leaves of its row and of the others:
-- internal/notify/app/dispatcher.go (deliver).
use nestova.Base.{
  ℕ, ◌≡◌, ◌⊎◌, ◌∙◌, sym, refl, subst, Bool, true, false, List, Option, none, some, ◌==◌,
  if◌then◌else◌, Option-cases, any, find, Bool-cases, arith, inl, inr, find-update-other, find-test,
  eq_of_test, test_of_eq, unmatched,
}
use nestova.Clock.{Time}
use nestova.Notify.Schema.{Notification, Channel, push, email, in_app, sms, sent, failed}
use nestova.Notify.Outbox.{is_id, marked, enqueue, mark_sent}
use nestova.Notify.Dispatcher.{
  Dispatcher, DispatchState, or_keep, fallback_copy, fallback_for_channel, fail_delivery,
  deliver_with, deliver,
}
use nestova.Notify.Dispatcher.Effects.{enqueue-cases}
use nestova.Notify.Dispatcher.Outcome.{
  row_of, is_delivered_by, any-find, find-mark_failed, find-mark_sent,
}

-- The row of a notification after its delivery: sent now where its sender delivered it, and failed
-- where none did.
abbrev pub IsOutcome : Dispatcher → Time → Notification → Notification → Type 0
IsOutcome d now n row =
    ((is_delivered_by (d.senders n.channel) n ≡ true)
      × (row.status ≡ sent)
      × (row.sent_at ≡ some now))
    ⊎ ((is_delivered_by (d.senders n.channel) n ≡ false) × (row.status ≡ failed))

abbrev pub HasOutcome : Dispatcher → Time → List Notification → Notification → Type 0
HasOutcome d now rows n =
    (row : Notification) × (row_of n.id rows ≡ some row) × IsOutcome d now n row

-- A new row leaves the others where they were.
row-enqueue :
    (accepts : Notification → Bool) (now : Time) (n : Notification) (i : ℕ)
    (rows : List Notification) {row : Notification}
    → row_of i rows ≡ some row
    → row_of i (or_keep rows (enqueue accepts now n rows)) ≡ some row
unfolding find
row-enqueue accepts now n i rows {row} h = elim (enqueue-cases accepts now n rows) [
  | inl e ↦ rw e h
  | inr (fresh, e) ↦ elim (Bool-cases (n.id == i)) [
    | inl same ↦
        let there : any (is_id n.id) rows ≡ true =
          subst (λ k. any (is_id k) rows ≡ true) (sym (eq_of_test n.id i same))
            (any-find i rows h) in
        absurd (cc (fresh, there))
    | inr other ↦ rw e (rw other h)
  ]
]

row-fallback :
    (d : Dispatcher) (now : Time) (n : Notification) (i : ℕ) (rows : List Notification)
    {row : Notification} (c : Channel)
    → row_of i rows ≡ some row
    → row_of i (fallback_for_channel d now n c rows) ≡ some row
row-fallback d now n i rows sms h = row-enqueue d.accepts now (fallback_copy d now n) i rows h
row-fallback d now n i rows email h = row-enqueue d.accepts now (fallback_copy d now n) i rows h
row-fallback d now n i rows push h = h
row-fallback d now n i rows in_app h = h

row-fail_delivery :
    (d : Dispatcher) (now : Time) (n : Notification) (i : ℕ) (rows : List Notification)
    {row : Notification}
    → any (is_id n.id) rows ≡ true
    → row_of i rows ≡ some row
    → row_of i (fail_delivery d now n rows)
      ≡ some (if row.id == n.id then marked failed row else row)
row-fail_delivery d now n i rows here h =
    let (own, own_found) =
      elim (Option-cases (row_of n.id rows))
        as (λ x. (own : Notification) × (row_of n.id rows ≡ some own)) [
          | inl none' ↦ absurd (cc (unmatched (is_id n.id) rows none', here))
          | inr found ↦ found
        ] in
    find-mark_failed i n.id (fallback_for_channel d now n n.channel rows)
      (any-find n.id _ (row-fallback d now n n.id rows n.channel own_found))
      (row-fallback d now n i rows n.channel h)

row_id :
    (i : ℕ) (rows : List Notification) {row : Notification} → row_of i rows ≡ some row → row.id ≡ i
row_id i rows {row} h = eq_of_test row.id i (find-test (is_id i) rows h)

pub own-deliver :
    (d : Dispatcher) (now : Time) (n : Notification) (s : DispatchState)
    → any (is_id n.id) s.outbox ≡ true
    → HasOutcome d now (deliver d now n s).outbox n
unfolding deliver
own-deliver d now n s here = elim (Option-cases (row_of n.id s.outbox)) [
  | inl none' ↦ absurd (cc (unmatched (is_id n.id) s.outbox none', here))
  | inr (row, found) ↦ with_sender row found (d.senders n.channel)
]
  where
    failed_row :
        (row : Notification)
        → row_of n.id s.outbox ≡ some row
        → row_of n.id (fail_delivery d now n s.outbox) ≡ some (marked failed row)
    failed_row row found =
        row-fail_delivery d now n n.id s.outbox here found
        ∙ rw (row_id n.id s.outbox found) (rw (test_of_eq n.id) refl)

    with_sender :
        (row : Notification)
        → row_of n.id s.outbox ≡ some row
        → (o : Option (Notification → Bool))
        → (after : Notification) × (row_of n.id (deliver_with o d now n s).outbox ≡ some after)
          × (((is_delivered_by o n ≡ true) × (after.status ≡ sent) × (after.sent_at ≡ some now))
              ⊎ ((is_delivered_by o n ≡ false) × (after.status ≡ failed)))
    with_sender row found none = (marked failed row, failed_row row found, inr (refl, refl))
    with_sender row found (some send) = elim (Bool-cases (send n)) [
      | inl t ↦ (
        record row { status = sent; sent_at = some now },
        rw t (find-mark_sent now n.id s.outbox found),
        inl (t, refl, refl),
      )
      | inr t ↦ (marked failed row, rw t (failed_row row found), inr (t, refl))
    ]

-- The delivery of one notification leaves the rows of the others alone.
pub other-deliver :
    (d : Dispatcher) (now : Time) (n : Notification) (s : DispatchState) (i : ℕ)
    {row : Notification}
    → any (is_id n.id) s.outbox ≡ true
    → (n.id == i) ≡ false
    → row_of i s.outbox ≡ some row
    → row_of i (deliver d now n s).outbox ≡ some row
unfolding deliver
other-deliver d now n s i {row} here other h = with_sender (d.senders n.channel)
  where
    apart : (row.id == n.id) ≡ false
    apart = ground (arith, row_id i s.outbox h, other)

    failed_kept : row_of i (fail_delivery d now n s.outbox) ≡ some row
    failed_kept = row-fail_delivery d now n i s.outbox here h ∙ rw apart refl

    sent_kept : row_of i (or_keep s.outbox (mark_sent now n.id s.outbox)) ≡ some row
    sent_kept =
        unfold mark_sent in
        rw here (
          find-update-other (is_id i) (is_id n.id)
            (λ m. record m { status = sent; sent_at = some now }) s.outbox
            (λ x own. ground (arith, own, other)) (λ x. refl)
          ∙ h)

    with_sender :
        (o : Option (Notification → Bool)) → row_of i (deliver_with o d now n s).outbox ≡ some row
    with_sender none = failed_kept
    with_sender (some send) = elim (Bool-cases (send n)) [
      | inl t ↦ rw t sent_kept
      | inr t ↦ rw t failed_kept
    ]

found_row :
    (i : ℕ) (rows : List Notification)
    → any (is_id i) rows ≡ true
    → (row : Notification) × (row_of i rows ≡ some row)
found_row i rows here = elim (Option-cases (row_of i rows)) [
  | inl none' ↦ absurd (cc (unmatched (is_id i) rows none', here))
  | inr found ↦ found
]

-- No delivery removes a row.
pub any-deliver :
    (d : Dispatcher) (now : Time) (n : Notification) (s : DispatchState) (i : ℕ)
    → any (is_id n.id) s.outbox ≡ true
    → any (is_id i) s.outbox ≡ true
    → any (is_id i) (deliver d now n s).outbox ≡ true
any-deliver d now n s i here there = elim (Bool-cases (n.id == i)) [
  | inl same ↦
      let (row, found, outcome) = own-deliver d now n s here in
      subst (λ k. any (is_id k) (deliver d now n s).outbox ≡ true) (eq_of_test n.id i same)
        (any-find n.id (deliver d now n s).outbox found)
  | inr other ↦
      let (row, found) = found_row i s.outbox there in
      any-find i (deliver d now n s).outbox (other-deliver d now n s i here other found)
]
