-- ===== src/Tasks/Trades/Rules.antt =====
-- What is known when a trade operation succeeds.
use nestova.Base.{
  OnSuccess, OnSuccess-or_fail, ◌<◌, ◌≡◌, arith, ℕ, true, false, ◌&&◌, ◌∷◌, ◌==◌, some, is_key, any,
  find, count, update,
}
use nestova.Tasks.Schema.{Store, TaskInstance, ChoreTrade, accepted, is_proposed}
use nestova.Tasks.Instances.{is_row}
use nestova.Tasks.Trades.{
  Proposal, holds, reservation, reserve_instances, free_reservations, insert_trade, propose,
  proposed_trade, earlier_expiry, is_instance_tradeable, accept, can_accept, can_swap, swapped,
  closed_as,
}

-- A trade that is inserted has a new identifier and reserves two instances that are not reserved.
pub insert_trade_rule :
    (P : Store → Type 0) (t : ChoreTrade) (s : Store)
    → is_proposed t.status ≡ true
    → (any (λ o. o.id == t.id) s.trades ≡ false
        → any (holds t.offered) s.reservations ≡ false
        → any (holds t.requested) s.reservations ≡ false
        → P (record s {
          trades = t ∷ s.trades;
          reservations = reservation t t.offered ∷ reservation t t.requested ∷ s.reservations;
        }))
    → OnSuccess P (insert_trade t s)
unfolding insert_trade reserve_instances
insert_trade_rule P t s live k = ground arith

-- What is known when a proposal has been written.
pub propose_rule :
    (P : Store → Type 0) (wall now household : ℕ) (p : Proposal) (s : Store)
    → ((offered requested : TaskInstance)
        → find (is_row household p.offered) s.instances ≡ some offered
        → find (is_row household p.requested) s.instances ≡ some requested
        → is_instance_tradeable offered && is_instance_tradeable requested ≡ true
        → is_key offered.assignee p.proposer && is_key requested.assignee p.responder ≡ true
        → wall < earlier_expiry offered.due_on requested.due_on
        → OnSuccess P (
            insert_trade
              (proposed_trade now household p (earlier_expiry offered.due_on requested.due_on))
              s))
    → OnSuccess P (propose wall now household p s)
unfolding propose
propose_rule P wall now household p s k =
    OnSuccess-or_fail P (find (is_row household p.offered) s.instances) _ _ λ offered ho.
      OnSuccess-or_fail P (find (is_row household p.requested) s.instances) _ _
        λ requested hr. ground (arith, k offered requested ho hr)

-- What is known when a trade has been accepted.
pub accept_rule :
    (P : Store → Type 0) (now household id responder at : ℕ) (s : Store)
    → ((t : ChoreTrade)
        → find (can_accept household id responder at) s.trades ≡ some t
        → count (can_swap household t) s.instances ≡ 2
        → P (record s {
          trades = update (can_accept household id responder at) (closed_as accepted at) s.trades;
          reservations =
              free_reservations
                (can_accept household id responder at)
                accepted
                s.trades
                s.reservations;
          instances = update (can_swap household t) (swapped now t) s.instances;
        }))
    → OnSuccess P (accept now household id responder at s)
unfolding accept
accept_rule P now household id responder at s k =
    OnSuccess-or_fail P (find (can_accept household id responder at) s.trades) _ _
      λ t ht. ground (arith, k t ht)
