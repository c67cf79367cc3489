-- ===== src/Notify/Dispatcher/Drain.antt =====
-- Whether what is due gets out: polls of internal/notify/app/dispatcher.go with other work coming
-- in between.
use nestova.Base.{
  ℕ, ◌≤◌, ◌<◌, ◌≡◌, refl, Bool, List, [], ◌∷◌, Option, none, some, leb, count, All, length,
  Bool-cases, arith, inl, inr, dec_lt,
}
use nestova.Clock.{Time}
use nestova.Notify.Schema.{Notification, Channel, push, email, in_app, sms}
use nestova.Notify.Outbox.{is_due, enqueue, claim_due}
use nestova.Notify.Outbox.Claiming.{is_by, count-claim_due, due_batch-oldest}
use nestova.Notify.Dispatcher.{
  Dispatcher, DispatchState, or_keep, fallback_copy, fallback_for_channel, fail_delivery,
  deliver_with, deliver, deliver_all, run_once,
}
use nestova.Notify.Dispatcher.Effects.{Test, pending-mark_sent, pending-mark_failed, enqueue-cases}

-- A poll at `now`, with what the rest of the program enqueues before it.
pub record Round : Type 0 where
  pub now : Time
  pub arrivals : List Notification

unfoldable pub enqueue_all :
    Dispatcher → Time → List Notification → List Notification → List Notification
enqueue_all d now [] rows = rows
enqueue_all d now (n ∷ arrivals) rows =
    enqueue_all d now arrivals (or_keep rows (enqueue d.accepts now n rows))

unfoldable pub run_rounds : Dispatcher → List Round → DispatchState → DispatchState
run_rounds d [] s = s
run_rounds d (r ∷ rounds) s =
    run_rounds d rounds
      (run_once d r.now (record s { outbox = enqueue_all d r.now r.arrivals s.outbox })).0

-- The pending rows that were due at `t`.
abbrev by : Time → Test
by t = λ id u. leb u t

abbrev pub due_count : Time → List Notification → ℕ
due_count t rows = count (is_due t) rows

-- What arrives is scheduled after `t`, and so is the poll.
abbrev pub IsAfter : Time → Round → Type 0
IsAfter t r = (t < r.now) × All (λ n. t < n.scheduled_for) r.arrivals

due-enqueue :
    (accepts : Notification → Bool) (t now : Time) (n : Notification) (rows : List Notification)
    → t < n.scheduled_for
    → due_count t (or_keep rows (enqueue accepts now n rows)) ≤ due_count t rows
unfolding count
due-enqueue accepts t now n rows later = elim (enqueue-cases accepts now n rows) [
  | inl e ↦ rw e (omega arith)
  | inr (fresh, e) ↦ rw e (ground (arith, later))
]

due-enqueue_all :
    (d : Dispatcher) (t now : Time) (arrivals rows : List Notification)
    → All (λ n. t < n.scheduled_for) arrivals
    → due_count t (enqueue_all d now arrivals rows) ≤ due_count t rows
unfolding enqueue_all
due-enqueue_all d t now [] rows later = omega arith
due-enqueue_all d t now (n ∷ arrivals) rows later = omega (
  arith,
  due-enqueue d.accepts t now n rows later.0,
  due-enqueue_all d t now arrivals (or_keep rows (enqueue d.accepts now n rows)) later.1,
)

due-fail_delivery :
    (d : Dispatcher) (t now : Time) (n : Notification) (rows : List Notification)
    → t < now
    → due_count t (fail_delivery d now n rows) ≤ due_count t rows
due-fail_delivery d t now n rows later = omega (
  arith,
  with_fallback n.channel,
  pending-mark_failed (by t) now n.id (fallback_for_channel d now n n.channel rows),
)
  where
    with_fallback :
        (c : Channel) → due_count t (fallback_for_channel d now n c rows) ≤ due_count t rows
    with_fallback sms = due-enqueue d.accepts t now (fallback_copy d now n) rows later
    with_fallback email = due-enqueue d.accepts t now (fallback_copy d now n) rows later
    with_fallback push = omega arith
    with_fallback in_app = omega arith

due-deliver :
    (d : Dispatcher) (t now : Time) (n : Notification) (s : DispatchState)
    → t < now
    → due_count t (deliver d now n s).outbox ≤ due_count t s.outbox
unfolding deliver
due-deliver d t now n s later = with_sender (d.senders n.channel)
  where
    with_sender :
        (o : Option (Notification → Bool))
        → due_count t (deliver_with o d now n s).outbox ≤ due_count t s.outbox
    with_sender none = due-fail_delivery d t now n s.outbox later
    with_sender (some send) = elim (Bool-cases (send n)) [
      | inl e ↦ rw e (pending-mark_sent (by t) now n.id s.outbox)
      | inr e ↦ rw e (due-fail_delivery d t now n s.outbox later)
    ]

due-deliver_all :
    (d : Dispatcher) (t now : Time) (batch : List Notification) (s : DispatchState)
    → t < now
    → due_count t (deliver_all d now batch s).outbox ≤ due_count t s.outbox
unfolding deliver_all
due-deliver_all d t now [] s later = omega arith
due-deliver_all d t now (n ∷ batch) s later =
    omega (
      arith,
      due-deliver d t now n s later,
      due-deliver_all d t now batch (deliver d now n s) later,
    )

-- A poll takes at least one of the rows that were due at an earlier time.
due-run_once :
    (d : Dispatcher) (t now : Time) (s : DispatchState)
    → 0 < d.batch_size
    → t < now
    → 0 < due_count t s.outbox
    → due_count t (run_once d now s).0.outbox < due_count t s.outbox
unfolding run_once
due-run_once d t now s size later h =
    let (batch, rows) = claim_due now d.batch_size s.outbox in
    omega (
      arith,
      due-deliver_all d t now batch (record s { outbox = rows }) later,
      count-claim_due (is_by t) now d.batch_size s.outbox (λ n. refl),
      due_batch-oldest t now d.batch_size s.outbox (omega arith) size h,
    )

due-run_once_le :
    (d : Dispatcher) (t now : Time) (s : DispatchState)
    → t < now
    → due_count t (run_once d now s).0.outbox ≤ due_count t s.outbox
unfolding run_once
due-run_once_le d t now s later =
    let (batch, rows) = claim_due now d.batch_size s.outbox in
    omega (
      arith,
      due-deliver_all d t now batch (record s { outbox = rows }) later,
      count-claim_due (is_by t) now d.batch_size s.outbox (λ n. refl),
    )

-- What is due at a time is claimed after as many later polls as there are such notifications, or
-- fewer, whatever else is enqueued for later in between and however small the batches are.
pub run_rounds-due :
    (d : Dispatcher) (t : Time) (rounds : List Round) (s : DispatchState)
    → 0 < d.batch_size
    → All (IsAfter t) rounds
    → due_count t s.outbox ≤ length rounds
    → due_count t (run_rounds d rounds s).outbox ≡ 0
unfolding run_rounds
run_rounds-due d t [] s size after enough = omega arith
run_rounds-due d t (r ∷ rounds) s size ((later, arrivals), after) enough =
    let s' = record s { outbox = enqueue_all d r.now r.arrivals s.outbox } in
    let fewer = due-enqueue_all d t r.now r.arrivals s.outbox arrivals in
    run_rounds-due d t rounds (run_once d r.now s').0 size after
      (elim (dec_lt 0 (due_count t s'.outbox)) [
        | yes h ↦ omega (arith, due-run_once d t r.now s' size later h)
        | no h ↦ omega (arith, due-run_once_le d t r.now s' later)
      ])
