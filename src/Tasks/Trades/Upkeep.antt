-- ===== src/Tasks/Trades/Upkeep.antt =====
-- The reservations under each operation of internal/tasks/adapter/trade_postgres.go.
use nestova.Base.{ℕ, ◌≡◌, refl, Bool, false, any, OnSuccess, Bool-cases, inl, inr}
use nestova.Clock.{Time}
use nestova.Tasks.Schema.{Store, ChoreTrade, TradeStatus, accepted, expired, is_proposed}
use nestova.Tasks.Trades.{
  Proposal, proposed_trade, earlier_expiry, propose, accept, can_accept, close_trade,
  is_expired_trade, sweep_expired_trades,
}
use nestova.Tasks.Trades.Rules.{insert_trade_rule, propose_rule, accept_rule}
use nestova.Tasks.Trades.Reservations.{StoreReserved, insert-IsReserved, close-IsReserved}

pub propose-Reserved :
    (wall now : Time) (household : ℕ) (p : Proposal) (s : Store)
    → StoreReserved s
    → OnSuccess StoreReserved (propose wall now household p s)
propose-Reserved wall now household p s v =
    propose_rule StoreReserved wall now household p s λ o r _ _ _ _ _.
      let t = proposed_trade now household p (earlier_expiry o.due_on r.due_on) in
      insert_trade_rule StoreReserved t s refl
        λ fresh ho hr. insert-IsReserved t s.trades s.reservations refl fresh ho hr v

pub accept-Reserved :
    (now : Time) (household id responder : ℕ) (at : Time) (s : Store)
    → StoreReserved s
    → OnSuccess StoreReserved (accept now household id responder at s)
accept-Reserved now household id responder at s v =
    accept_rule StoreReserved now household id responder at s λ t _ _.
      close-IsReserved (can_accept household id responder at) accepted at s.trades s.reservations
        refl v

pub close_trade-Reserved :
    (hit : ChoreTrade → Bool) (status : TradeStatus) (at : Time) (s : Store)
    → is_proposed status ≡ false
    → StoreReserved s
    → OnSuccess StoreReserved (close_trade hit status at s)
close_trade-Reserved hit status at s shut v = elim (Bool-cases (any hit s.trades)) [
  | inl some_hit ↦ rw some_hit (close-IsReserved hit status at s.trades s.reservations shut v)
  | inr no_hit ↦ rw no_hit tt
]

pub sweep-Reserved :
    (now as_of : Time) (s : Store)
    → StoreReserved s
    → StoreReserved (sweep_expired_trades now as_of s).0
unfolding sweep_expired_trades
sweep-Reserved now as_of s v =
    close-IsReserved (is_expired_trade as_of) expired now s.trades s.reservations refl v
