-- ===== src/Notify/Dispatcher/Steps.antt =====
-- Several dispatchers on one outbox, which may stop between a claim and a delivery:
-- internal/notify/app/dispatcher.go and internal/notify/adapter/postgres.go.
use nestova.Base.{ℕ, ◌≡◌, refl, List, [], ◌∷◌, ◌++◌, ok}
use nestova.Clock.{Time}
use nestova.Notify.Schema.{Notification}
use nestova.Notify.Outbox.{enqueue, claim_due}
use nestova.Notify.Dispatcher.{Dispatcher, DispatchState, deliver, deliver_all, run_once}

-- The outbox, and what the dispatchers have claimed and not yet delivered.
abbrev pub Dispatching : Type 0
Dispatching = DispatchState × List Notification

-- Anything that happens to the outbox: a notification comes in, a dispatcher claims a batch of
-- any size, or delivers one of the claimed notifications, or stops and loses one.
pub data Step (d : Dispatcher) (from to : Dispatching) : Type 0 where
  enqueues :
      (now : Time) (n : Notification) (rows : List Notification)
      → enqueue d.accepts now n from.0.outbox ≡ ok rows
      → to ≡ (record from.0 { outbox = rows }, from.1)
      → Step d from to
  claims :
      (now : Time) (limit : ℕ)
      → to ≡ (
        record from.0 { outbox = (claim_due now limit from.0.outbox).1 },
        (claim_due now limit from.0.outbox).0 ++ from.1,
      )
      → Step d from to
  delivers :
      (now : Time) (n : Notification) (before after : List Notification)
      → from.1 ≡ before ++ n ∷ after
      → to ≡ (deliver d now n from.0, before ++ after)
      → Step d from to
  loses :
      (n : Notification) (before after : List Notification)
      → from.1 ≡ before ++ n ∷ after
      → to ≡ (from.0, before ++ after)
      → Step d from to

pub data Reach (d : Dispatcher) (from : Dispatching) : Dispatching → Type 0 where
  here : Reach d from from
  next : {middle to : Dispatching} → Reach d from middle → Step d middle to → Reach d from to

-- The deliveries of a batch, one step each.
deliver_all-Reach :
    (d : Dispatcher) (now : Time) (from : Dispatching) (batch flight : List Notification)
    (s : DispatchState)
    → Reach d from (s, batch ++ flight)
    → Reach d from (deliver_all d now batch s, flight)
unfolding deliver_all
deliver_all-Reach d now from [] flight s reached = reached
deliver_all-Reach d now from (n ∷ batch) flight s reached =
    deliver_all-Reach d now from batch flight (deliver d now n s)
      (next reached (delivers now n [] (batch ++ flight) refl refl))

-- A poll of the dispatcher is a claim followed by the delivery of what it claimed, so it is among
-- what can happen to the outbox, whatever else is in flight.
pub run_once-Reach :
    (d : Dispatcher) (now : Time) (s : DispatchState) (flight : List Notification)
    → Reach d (s, flight) ((run_once d now s).0, flight)
unfolding run_once
run_once-Reach d now s flight =
    let (batch, rows) = claim_due now d.batch_size s.outbox in
    deliver_all-Reach d now (s, flight) batch flight (record s { outbox = rows })
      (next here (claims now d.batch_size refl))
