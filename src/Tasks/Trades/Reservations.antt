-- ===== src/Tasks/Trades/Reservations.antt =====
-- The reservations of instances by proposed trades, which the trigger of migration 00021 keeps.
use nestova.Base.{
  ℕ, ◌≤◌, ◌≡◌, ◌∙◌, refl, ap, subst, Bool, true, false, not, ◌&&◌, ◌||◌, List, [], ◌∷◌, arith, ◌==◌,
  if◌then◌else◌, Bool-cases, inl, inr, any, count, select, update, count-update-le, count-none,
  any-kept, All, All-map, All-both,
}
use nestova.Clock.{Time}
use nestova.Tasks.Schema.{Store, ChoreTrade, ChoreTradeReservation, TradeStatus, is_proposed}
use nestova.Tasks.Trades.{involves, holds, reservation, leaves, free_reservations, closed_as}

-- A live trade over the instance, in either role.
abbrev pub is_live_over : ℕ → ChoreTrade → Bool
is_live_over instance_id t = is_proposed t.status && involves instance_id t

-- What the proposed trades reserve: both instances of each.
unfoldable pub reserved_by : List ChoreTrade → List ChoreTradeReservation
reserved_by [] = []
reserved_by (t ∷ trades) =
    let rest = reserved_by trades in
    if is_proposed t.status
    then reservation t t.offered ∷ reservation t t.requested ∷ rest
    else rest

-- No trade has the identifier of a later one.
abbrev pub HasDistinctIds : List ChoreTrade → Type 0
HasDistinctIds [] = Unit
HasDistinctIds (t ∷ trades) = (any (λ u. u.id == t.id) trades ≡ false) × HasDistinctIds trades

-- The two tables of trades.
abbrev pub Trading : Type 0
Trading = List ChoreTrade × List ChoreTradeReservation

abbrev pub trading : Store → Trading
trading s = (s.trades, s.reservations)

-- The reservations are those of the proposed trades, and no two proposed trades share an instance.
pub record IsReserved (t : Trading) : Type 0 where
  pub distinct : HasDistinctIds t.0
  pub synced : t.1 ≡ reserved_by t.0
  pub exclusive : (instance_id : ℕ) → count (is_live_over instance_id) t.0 ≤ 1

-- An instance that is not reserved is in no proposed trade.
unreserved :
    (instance_id : ℕ) (trades : List ChoreTrade)
    → any (holds instance_id) (reserved_by trades) ≡ false
    → any (is_live_over instance_id) trades ≡ false
unfolding any reserved_by
unreserved instance_id [] h = refl
unreserved instance_id (t ∷ trades) h = elim (Bool-cases (is_proposed t.status)) [
  | inl live ↦ ground (arith, h, live, unreserved instance_id trades)
  | inr shut ↦ ground (arith, h, shut, unreserved instance_id trades)
]

pub insert-IsReserved :
    (t : ChoreTrade) (trades : List ChoreTrade) (rows : List ChoreTradeReservation)
    → is_proposed t.status ≡ true
    → any (λ o. o.id == t.id) trades ≡ false
    → any (holds t.offered) rows ≡ false
    → any (holds t.requested) rows ≡ false
    → IsReserved (trades, rows)
    → IsReserved (t ∷ trades, reservation t t.offered ∷ reservation t t.requested ∷ rows)
unfolding count reserved_by
insert-IsReserved t trades rows live fresh ho hr v =
    let no_offer =
      unreserved t.offered trades (subst (λ r. any (holds t.offered) r ≡ false) v.synced ho) in
    let no_request =
      unreserved t.requested trades (subst (λ r. any (holds t.requested) r ≡ false) v.synced hr) in
    record {
      distinct = (fresh, v.distinct);
      synced = rw live (ap (λ r. reservation t t.offered ∷ reservation t t.requested ∷ r) v.synced);
      exclusive = λ id. ground (
        arith,
        v.exclusive id,
        count-none (is_live_over t.offered) trades no_offer,
        count-none (is_live_over t.requested) trades no_request,
        Bool-cases (t.offered == id),
        Bool-cases (t.requested == id),
      );
    }

others_apart :
    (id : ℕ) (trades : List ChoreTrade)
    → any (λ u. u.id == id) trades ≡ false
    → All (λ u. (u.id == id) ≡ false) trades
unfolding any
others_apart id [] h = tt
others_apart id (t ∷ trades) h = (ground (arith, h), others_apart id trades (ground (arith, h)))

none_leaves :
    (hit : ChoreTrade → Bool) (status : TradeStatus) (id : ℕ) (trades : List ChoreTrade)
    → any (λ u. u.id == id) trades ≡ false
    → any (leaves hit status id) trades ≡ false
unfolding any
none_leaves hit status id [] h = refl
none_leaves hit status id (t ∷ trades) h =
    ground (arith, h, none_leaves hit status id trades (ground (arith, h)))

-- A proposed trade's reservations are given back exactly if the update selects it.
abbrev IsFreedWith : (ChoreTrade → Bool) → TradeStatus → List ChoreTrade → ChoreTrade → Type 0
IsFreedWith hit status trades t =
    any (leaves hit status t.id) trades ≡ (hit t && is_proposed t.status)

all-IsFreedWith :
    (hit : ChoreTrade → Bool) (status : TradeStatus) (trades : List ChoreTrade)
    → is_proposed status ≡ false
    → HasDistinctIds trades
    → All (IsFreedWith hit status trades) trades
unfolding any
all-IsFreedWith hit status [] shut d = tt
all-IsFreedWith hit status (t ∷ trades) shut (fresh, d) = (
  ground (arith, shut, none_leaves hit status t.id trades fresh),
  All-map _ _ trades (λ u h. apart u h.0 h.1)
      (All-both _ _ trades (others_apart t.id trades fresh)
        (all-IsFreedWith hit status trades shut d)),
)
  where
    apart :
        (u : ChoreTrade)
        → (u.id == t.id) ≡ false
        → IsFreedWith hit status trades u
        → (leaves hit status u.id t || any (leaves hit status u.id) trades)
          ≡ (hit u && is_proposed u.status)
    apart u other h = ground (arith, other, h)

select-reserved_by :
    (hit : ChoreTrade → Bool) (status : TradeStatus) (at : Time) (all trades : List ChoreTrade)
    → is_proposed status ≡ false
    → All (IsFreedWith hit status all) trades
    → select (λ r. not (any (leaves hit status r.trade) all)) (reserved_by trades)
      ≡ reserved_by (update hit (closed_as status at) trades)
unfolding select update reserved_by
select-reserved_by hit status at all [] shut h = refl
select-reserved_by hit status at all (t ∷ trades) shut (own, rest) =
    let later = select-reserved_by hit status at all trades shut rest in
    elim (Bool-cases (is_proposed t.status)) [
      | inr old ↦ elim (Bool-cases (hit t)) [
        | inl u ↦ rw (old, u, shut) later
        | inr u ↦ rw (old, u) (rw old later)
      ]
      | inl live ↦ elim (Bool-cases (hit t)) [
        | inl u ↦
            let freed : any (leaves hit status t.id) all ≡ true = ground (arith, own, live, u) in
            rw (live, u) (rw (freed, shut) later)
        | inr u ↦
            let kept : any (leaves hit status t.id) all ≡ false = ground (arith, own, u) in
            rw (live, u)
              (rw (kept, live)
                (ap (λ r. reservation t t.offered ∷ reservation t t.requested ∷ r) later))
      ]
    ]

closed-distinct :
    (hit : ChoreTrade → Bool) (status : TradeStatus) (at : Time) (trades : List ChoreTrade)
    → HasDistinctIds trades
    → HasDistinctIds (update hit (closed_as status at) trades)
unfolding update
closed-distinct hit status at [] d = tt
closed-distinct hit status at (t ∷ trades) (fresh, d) =
    let same = any-kept (λ u. u.id == t.id) hit (closed_as status at) trades (λ u. refl) in
    elim (Bool-cases (hit t)) [
      | inl u ↦ rw u (same ∙ fresh, closed-distinct hit status at trades d)
      | inr u ↦ rw u (same ∙ fresh, closed-distinct hit status at trades d)
    ]

-- Trades that leave `proposed` give their reservations back, and the others keep theirs.
pub close-IsReserved :
    (hit : ChoreTrade → Bool) (status : TradeStatus) (at : Time) (trades : List ChoreTrade)
    (rows : List ChoreTradeReservation)
    → is_proposed status ≡ false
    → IsReserved (trades, rows)
    → IsReserved (update hit (closed_as status at) trades, free_reservations hit status trades rows)
unfolding free_reservations
close-IsReserved hit status at trades rows shut v = record {
  distinct = closed-distinct hit status at trades v.distinct;
  synced =
      ap (select (λ r. not (any (leaves hit status r.trade) trades))) v.synced
      ∙ select-reserved_by hit status at trades trades shut
          (all-IsFreedWith hit status trades shut v.distinct);
  exclusive = λ id. omega (
    arith,
    v.exclusive id,
    count-update-le (is_live_over id) hit (closed_as status at) trades (λ t _ k. ground arith),
  );
}

abbrev pub StoreReserved : Store → Type 0
StoreReserved s = IsReserved (trading s)
