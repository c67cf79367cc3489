-- ===== src/Tasks/Trades.antt =====
-- Chore trades: internal/tasks/adapter/trade_postgres.go and internal/tasks/domain/trade.go, with
-- the constraints of the chore_trade tables and the trigger that keeps the reservations of the
-- instances (internal/platform/db/migrate/migrations/00021_chore_trade.sql). The titles, which the results carry for the notifications, are left out.
pub mod Rules
pub mod Reservations
pub mod Upkeep
pub mod Swap
use nestova.Base.{
  OnSuccess, OnSuccess-or_fail, ◌<◌, ◌≡◌, arith, ℕ, ◌+◌, Bool, true, false, not, ◌&&◌, ◌||◌, List,
  ◌∷◌, Option, none, some, ltb, leb, if◌then◌else◌, ◌==◌, is_key, is_none, any, find, count, select,
  update, Result, ok, err, ◌>>=◌, ◌>>◌, fail_if, or_fail,
}
use nestova.Clock.{Time, day_of, at_day}
use nestova.Tasks.Schema.{
  Store, TaskInstance, ChoreTrade, ChoreTradeReservation, TradeStatus, proposed, accepted, declined,
  expired, Error, instance_not_found, instance_not_tradeable, trade_window_closed, not_your_chore,
  trade_not_pending, database_error, is_pending, is_scheduled, is_proposed,
}
use nestova.Tasks.Instances.{is_row}

-- Only a proposed trade moves, and to any other status.
unfoldable can_transition_to : TradeStatus → TradeStatus → Bool
can_transition_to proposed next = if is_proposed next then false else true
can_transition_to _ next = false

unfoldable pub is_instance_tradeable : TaskInstance → Bool
is_instance_tradeable i =
    is_pending i.status
    && is_scheduled i.kind
    && is_none i.claimed_by
    && (if is_none i.due_on then false else true)

-- The midnight that ends the due day.
abbrev trade_expiry : Time → Time
trade_expiry due_on = at_day (day_of due_on + 1) 0

-- The earlier of the two expiries. Both dates are there once both instances are tradeable.
abbrev pub earlier_expiry : Option Time → Option Time → Time
earlier_expiry (some o) (some r) =
    if ltb (trade_expiry o) (trade_expiry r) then trade_expiry o else trade_expiry r
earlier_expiry _ _ = 0

abbrev pub involves : ℕ → ChoreTrade → Bool
involves instance_id t = t.offered == instance_id || t.requested == instance_id

abbrev is_live_proposal : ℕ → ℕ → ℕ → ChoreTrade → Bool
is_live_proposal household offered requested t =
    t.household == household && is_proposed t.status && (involves offered t || involves requested t)

-- What the caller of Propose fills in.
pub record Proposal : Type 0 where
  pub id : ℕ
  pub proposer : ℕ
  pub responder : ℕ
  pub offered : ℕ
  pub requested : ℕ

abbrev pub proposed_trade : Time → ℕ → Proposal → Time → ChoreTrade
proposed_trade now household p expires_at = record {
  id = p.id;
  household = household;
  proposer = p.proposer;
  responder = p.responder;
  offered = p.offered;
  requested = p.requested;
  status = proposed;
  created_at = now;
  resolved_at = none;
  expires_at = expires_at;
}

abbrev pub holds : ℕ → ChoreTradeReservation → Bool
holds instance_id r = r.instance_id == instance_id

abbrev pub reservation : ChoreTrade → ℕ → ChoreTradeReservation
reservation t instance_id = record {
  instance_id = instance_id;
  household = t.household;
  trade = t.id;
}

-- The trigger after an INSERT, with the primary key of the reservations.
unfoldable pub reserve_instances :
    ChoreTrade → List ChoreTradeReservation → Result Error (List ChoreTradeReservation)
reserve_instances t rows =
    if is_proposed t.status
    then (fail_if (any (holds t.offered) rows || any (holds t.requested) rows)
          instance_not_tradeable
        >> ok (reservation t t.offered ∷ reservation t t.requested ∷ rows))
    else ok rows

-- The trigger after an UPDATE of the trades that `hit` selects: those that leave `proposed` give
-- their reservations back.
abbrev pub leaves : (ChoreTrade → Bool) → TradeStatus → ℕ → ChoreTrade → Bool
leaves hit status id t = hit t && is_proposed t.status && not (is_proposed status) && t.id == id

unfoldable pub free_reservations :
    (ChoreTrade → Bool)
    → TradeStatus
    → List ChoreTrade
    → List ChoreTradeReservation
    → List ChoreTradeReservation
free_reservations hit status trades rows =
    select (λ r. not (any (leaves hit status r.trade) trades)) rows

-- The INSERT with its constraints.
unfoldable pub insert_trade : ChoreTrade → Store → Result Error Store
insert_trade t s = do
  fail_if (t.proposer == t.responder || t.offered == t.requested) database_error
  fail_if (any (λ o. o.id == t.id) s.trades) database_error
  reservations ← reserve_instances t s.reservations
  ok (record s { trades = t ∷ s.trades; reservations = reservations })

-- `wall` is the repository's clock, `now` the database's.
unfoldable pub propose : Time → Time → ℕ → Proposal → Store → Result Error Store
propose wall now household p s = do
  offered ← or_fail (find (is_row household p.offered) s.instances) instance_not_found
  requested ← or_fail (find (is_row household p.requested) s.instances) instance_not_found
  fail_if (if is_instance_tradeable offered && is_instance_tradeable requested then false else true)
      instance_not_tradeable
  fail_if (leb (earlier_expiry offered.due_on requested.due_on) wall) trade_window_closed
  fail_if (if is_key offered.assignee p.proposer then false else true) not_your_chore
  fail_if (if is_key requested.assignee p.responder then false else true) not_your_chore
  fail_if (any (is_live_proposal household p.offered p.requested) s.trades) instance_not_tradeable
  insert_trade (proposed_trade now household p (earlier_expiry offered.due_on requested.due_on)) s

abbrev pub closed_as : TradeStatus → Time → ChoreTrade → ChoreTrade
closed_as status at t = record t { status = status; resolved_at = some at }

abbrev is_proposed_trade : ℕ → ℕ → ChoreTrade → Bool
is_proposed_trade household id t = t.id == id && t.household == household && is_proposed t.status

abbrev pub can_accept : ℕ → ℕ → ℕ → Time → ChoreTrade → Bool
can_accept household id responder at t =
    is_proposed_trade household id t && t.responder == responder && ltb at t.expires_at

-- The rows that the swap changes.
abbrev pub can_swap : ℕ → ChoreTrade → TaskInstance → Bool
can_swap household t i =
    i.household == household
    && is_pending i.status
    && is_scheduled i.kind
    && is_none i.claimed_by
    && ((i.id == t.offered && is_key i.assignee t.proposer)
        || (i.id == t.requested && is_key i.assignee t.responder))

abbrev pub swapped : Time → ChoreTrade → TaskInstance → TaskInstance
swapped now t i = record i {
  assignee = some (if i.id == t.offered then t.responder else t.proposer);
  updated_at = now;
}

-- `at` is the time that the service passes, `now` the database's.
unfoldable pub accept : Time → ℕ → ℕ → ℕ → Time → Store → Result Error Store
accept now household id responder at s =
    let hit = can_accept household id responder at in
    do
      t ← or_fail (find hit s.trades) trade_not_pending
      fail_if (if count (can_swap household t) s.instances == 2 then false else true)
          instance_not_tradeable
      ok (record s {
        trades = update hit (closed_as accepted at) s.trades;
        reservations = free_reservations hit accepted s.trades s.reservations;
        instances = update (can_swap household t) (swapped now t) s.instances;
      })

-- Decline, Cancel and the sweep close a trade and touch nothing else.
abbrev pub close_trade : (ChoreTrade → Bool) → TradeStatus → Time → Store → Result Error Store
close_trade hit status at s =
    if any hit s.trades
    then ok (record s {
      trades = update hit (closed_as status at) s.trades;
      reservations = free_reservations hit status s.trades s.reservations;
    })
    else err trade_not_pending

unfoldable pub decline : Time → ℕ → ℕ → ℕ → Store → Result Error Store
decline now household id responder =
    close_trade (λ t. is_proposed_trade household id t && t.responder == responder) declined now

unfoldable pub cancel_trade : Time → ℕ → ℕ → ℕ → Store → Result Error Store
cancel_trade now household id proposer =
    close_trade (λ t. is_proposed_trade household id t && t.proposer == proposer)
      TradeStatus.cancelled now

abbrev pub is_expired_trade : Time → ChoreTrade → Bool
is_expired_trade as_of t = is_proposed t.status && leb t.expires_at as_of

-- The new store and the trades that expired.
unfoldable pub sweep_expired_trades : Time → Time → Store → Store × List ChoreTrade
sweep_expired_trades now as_of s = (
  record s {
    trades = update (is_expired_trade as_of) (closed_as expired now) s.trades;
    reservations = free_reservations (is_expired_trade as_of) expired s.trades s.reservations;
  },
  select (is_expired_trade as_of) s.trades,
)
