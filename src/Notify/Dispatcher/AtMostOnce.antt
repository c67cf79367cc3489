-- ===== src/Notify/Dispatcher/AtMostOnce.antt =====
-- Several dispatchers on one outbox, which may stop between a claim and a delivery:
-- internal/notify/app/dispatcher.go and internal/notify/adapter/postgres.go.
use nestova.Base.{
  ℕ, ◌+◌, ◌≤◌, ◌≡◌, refl, Bool, true, false, List, [], ◌∷◌, ◌++◌, Option, none, some, ◌==◌, subst,
  eq_of_test, any, count, Bool-cases, arith, inl, inr, count-none, count-append,
}
use nestova.Clock.{Time}
use nestova.Notify.Schema.{Notification, Channel, push, email, in_app, sms}
use nestova.Notify.Outbox.{is_id, enqueue, claim_due}
use nestova.Notify.Outbox.Claiming.{count-claim_due}
use nestova.Notify.Dispatcher.{
  Dispatcher, DispatchState, or_keep, fallback_copy, fallback_for_channel, fail_delivery,
  deliver_with, deliver,
}
use nestova.Notify.Dispatcher.Steps.{
  Dispatching, Step, enqueues, claims, delivers, loses, Reach, here, next,
}
use nestova.Notify.Dispatcher.Effects.{
  Test, rows_with, pending_with, pending-mark_sent, rows-mark_sent, pending-mark_failed,
  rows-mark_failed, rows-claim_due, enqueue-cases,
}

abbrev with_id : ℕ → Test
with_id i = λ id u. id == i

-- An identifier is handed to a sender, claimed or pending at most once, and so is its row.
abbrev pub IsAtMostOnce : Dispatching → Type 0
IsAtMostOnce (s, flight) =
    (i : ℕ)
    → (count (is_id i) s.attempts + count (is_id i) flight + pending_with (with_id i) s.outbox
        ≤ rows_with (with_id i) s.outbox)
      × (rows_with (with_id i) s.outbox ≤ 1)

-- The table keeps its rows, gains rows of new identifiers only, and no row turns pending again.
abbrev Extends : List Notification → List Notification → Type 0
Extends rows rows' =
    (i : ℕ)
    → (pending_with (with_id i) rows' + rows_with (with_id i) rows
        ≤ pending_with (with_id i) rows + rows_with (with_id i) rows')
      × (rows_with (with_id i) rows ≤ 1 → rows_with (with_id i) rows' ≤ 1)

Extends-trans : (a b c : List Notification) → Extends a b → Extends b c → Extends a c
Extends-trans a b c f g i = (omega (arith, (f i).0, (g i).0), λ h. (g i).1 ((f i).1 h))

rows-fresh :
    (i j : ℕ) (rows : List Notification)
    → (j == i) ≡ true
    → any (is_id j) rows ≡ false
    → rows_with (with_id i) rows ≡ 0
rows-fresh i j rows e fresh =
    count-none (is_id i) rows (subst (λ k. any (is_id k) rows ≡ false) (eq_of_test j i e) fresh)

enqueue-Extends :
    (accepts : Notification → Bool) (now : Time) (n : Notification) (rows : List Notification)
    → Extends rows (or_keep rows (enqueue accepts now n rows))
unfolding count
enqueue-Extends accepts now n rows i = elim (enqueue-cases accepts now n rows) [
  | inl e ↦ rw e (omega arith)
  | inr (fresh, e) ↦ rw e (ground (arith, Bool-cases (n.id == i), rows-fresh i n.id rows, fresh))
]

fail_delivery-Extends :
    (d : Dispatcher) (now : Time) (n : Notification) (rows : List Notification)
    → Extends rows (fail_delivery d now n rows)
fail_delivery-Extends d now n rows =
    let rows' = fallback_for_channel d now n n.channel rows in
    Extends-trans rows rows' (fail_delivery d now n rows) (with_fallback n.channel) λ i. omega (
      arith,
      pending-mark_failed (with_id i) now n.id rows',
      rows-mark_failed (with_id i) now n.id rows',
    )
  where
    with_fallback : (c : Channel) → Extends rows (fallback_for_channel d now n c rows)
    with_fallback sms = enqueue-Extends d.accepts now (fallback_copy d now n) rows
    with_fallback email = enqueue-Extends d.accepts now (fallback_copy d now n) rows
    with_fallback push = λ i. omega arith
    with_fallback in_app = λ i. omega arith

pub deliver-Extends :
    (d : Dispatcher) (now : Time) (n : Notification) (s : DispatchState)
    → Extends s.outbox (deliver d now n s).outbox
unfolding deliver
deliver-Extends d now n s = with_sender (d.senders n.channel)
  where
    with_sender :
        (o : Option (Notification → Bool)) → Extends s.outbox (deliver_with o d now n s).outbox
    with_sender none = fail_delivery-Extends d now n s.outbox
    with_sender (some send) = elim (Bool-cases (send n)) [
      | inl e ↦ rw e (λ i. omega (
        arith,
        pending-mark_sent (with_id i) now n.id s.outbox,
        rows-mark_sent (with_id i) now n.id s.outbox,
      ))
      | inr e ↦ rw e (fail_delivery-Extends d now n s.outbox)
    ]

-- A delivery hands over at most its own notification.
attempts-deliver :
    (d : Dispatcher) (now : Time) (n : Notification) (s : DispatchState) (i : ℕ)
    → count (is_id i) (deliver d now n s).attempts ≤ count (is_id i) (n ∷ s.attempts)
unfolding deliver count
attempts-deliver d now n s i = with_sender (d.senders n.channel)
  where
    with_sender :
        (o : Option (Notification → Bool))
        → count (is_id i) (deliver_with o d now n s).attempts ≤ count (is_id i) (n ∷ s.attempts)
    with_sender none = ground arith
    with_sender (some send) = ground arith

count-out :
    (p : Notification → Bool) (n : Notification) (before after : List Notification)
    → count p (before ++ n ∷ after) ≡ count p (before ++ after) + count p (n ∷ [])
unfolding count
count-out p n before after =
    ground (arith, count-append p before (n ∷ after), count-append p before after, Bool-cases (p n))

-- A change that extends the table and hands over no more than leaves the flight.
kept :
    (s s' : DispatchState) (flight flight' : List Notification)
    → Extends s.outbox s'.outbox
    → ((i : ℕ)
        → count (is_id i) s'.attempts + count (is_id i) flight'
          ≤ count (is_id i) s.attempts + count (is_id i) flight)
    → IsAtMostOnce (s, flight)
    → IsAtMostOnce (s', flight')
kept s s' flight flight' grows moves once i =
    (omega (arith, (once i).0, (grows i).0, moves i), (grows i).1 (once i).1)

pub Step-IsAtMostOnce :
    (d : Dispatcher) (from to : Dispatching) → Step d from to → IsAtMostOnce from → IsAtMostOnce to
unfolding count
Step-IsAtMostOnce d (s, flight) to (enqueues now n rows e same) once =
    let grows =
      subst (λ r. Extends s.outbox (or_keep s.outbox r)) e
        (enqueue-Extends d.accepts now n s.outbox) in
    rw same (kept s (record s { outbox = rows }) flight flight grows (λ i. omega arith) once)
Step-IsAtMostOnce d (s, flight) to (claims now limit same) once = rw same (λ i. (
  omega (
    arith,
    (once i).0,
    rows-claim_due (with_id i) now limit s.outbox,
    count-claim_due (λ n. n.id == i) now limit s.outbox (λ n. refl),
    count-append (is_id i) (claim_due now limit s.outbox).0 flight,
  ),
  omega (arith, (once i).1, rows-claim_due (with_id i) now limit s.outbox),
))
Step-IsAtMostOnce d (s, flight) to (delivers now n before after e same) once = rw same (
    kept s (deliver d now n s) flight (before ++ after) (deliver-Extends d now n s)
      (λ i. rw e (
        ground (
          arith,
          attempts-deliver d now n s i,
          count-out (is_id i) n before after,
          Bool-cases (n.id == i),
        )))
      once)
Step-IsAtMostOnce d (s, flight) to (loses n before after e same) once = rw same (
    kept s s flight (before ++ after) (λ i. omega arith)
      (λ i. rw e (omega (arith, count-out (is_id i) n before after))) once)

-- However dispatchers interleave, and wherever they stop, no notification is handed to a sender
-- twice, and none that was handed over or claimed is pending: at the end, as at the start, each
-- identifier occurs at most once among the deliveries tried, the claims in flight and the pending
-- rows together.
pub Reach-IsAtMostOnce :
    (d : Dispatcher) (from to : Dispatching) → IsAtMostOnce from → Reach d from to → IsAtMostOnce to
Reach-IsAtMostOnce d from to once here = once
Reach-IsAtMostOnce d from to once (next {middle} reached step) =
    Step-IsAtMostOnce d middle to step (Reach-IsAtMostOnce d from middle once reached)
