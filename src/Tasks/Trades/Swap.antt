-- ===== src/Tasks/Trades/Swap.antt =====
-- What accepting a trade does.
use nestova.Base.{
  count-le, eq_of_test, Option-cases, sym, All, find-All, find-key, count-either, OnSuccess-ok, ℕ,
  ◌≡◌, ◌∙◌, refl, ap, true, false, ◌&&◌, List, some, arith, ◌==◌, if◌then◌else◌, inl, inr, find,
  count, update, ok, ◌≢◌, find-update, find-test,
}
use mathlib.Core.Option
use nestova.Tasks.Schema.{Store, TaskInstance, ChoreTrade}
use nestova.Tasks.Rows.{HasKeys}
use nestova.Tasks.Lifecycle.{lookup}
use nestova.Tasks.Trades.{accept, can_accept, can_swap, swapped}
use nestova.Tasks.Trades.Rules.{accept_rule}

-- The schema's check that a trade is over two instances.
abbrev IsPair : ChoreTrade → Type 0
IsPair t = t.offered ≢ t.requested

-- The proposer's chore goes to the responder and the responder's to the proposer, both were theirs;
-- every other instance, the points and the redemptions stay.
pub record Swaps (t : ChoreTrade) (s s' : Store) : Type 0 where
  pub offered :
      (i : TaskInstance) × (j : TaskInstance) × (lookup t.offered s.instances ≡ some i)
      × (lookup t.offered s'.instances ≡ some j)
      × (i.assignee ≡ some t.proposer)
      × (j.assignee ≡ some t.responder)
  pub requested :
      (i : TaskInstance) × (j : TaskInstance) × (lookup t.requested s.instances ≡ some i)
      × (lookup t.requested s'.instances ≡ some j)
      × (i.assignee ≡ some t.responder)
      × (j.assignee ≡ some t.proposer)
  pub others :
      (id : ℕ) → id ≢ t.offered → id ≢ t.requested → lookup id s'.instances ≡ lookup id s.instances
  pub same_ledger : s'.ledger ≡ s.ledger
  pub same_redemptions : s'.redemptions ≡ s.redemptions

swap_table : ℕ → ℕ → ChoreTrade → List TaskInstance → List TaskInstance
swap_table now household t = update (can_swap household t) (swapped now t)

lookup-swap :
    (now household : ℕ) (t : ChoreTrade) (xs : List TaskInstance) (id : ℕ)
    → lookup id (swap_table now household t xs)
      ≡ Option.map (λ i. if can_swap household t i then swapped now t i else i) (lookup id xs)
unfolding swap_table
lookup-swap now household t xs id =
    find-update (λ j. j.id == id) (can_swap household t) (swapped now t) xs (λ x. refl)

-- Two rows are swapped, so each of the two instances is one of them.
both_found :
    (household : ℕ) (t : ChoreTrade) (xs : List TaskInstance)
    → HasKeys xs
    → count (can_swap household t) xs ≡ 2
    → ((i : TaskInstance) × (lookup t.offered xs ≡ some i) × (can_swap household t i ≡ true))
      × ((i : TaskInstance) × (lookup t.requested xs ≡ some i) × (can_swap household t i ≡ true))
both_found household t xs keys two =
    let p = can_swap household t in
    let is_offered = λ (i : TaskInstance). i.id == t.offered in
    let is_requested = λ (i : TaskInstance). i.id == t.requested in
    let split = count-either p is_offered is_requested xs (λ i e. ground arith) in
    let few = count-le (λ i. p i && is_offered i) is_offered xs (λ i e. ground (arith, e)) in
    let few' = count-le (λ i. p i && is_requested i) is_requested xs (λ i e. ground (arith, e)) in
    (
      find-key p is_offered xs (keys t.offered) (omega (arith, keys t.requested)),
      find-key p is_requested xs (keys t.requested) (omega (arith, keys t.offered)),
    )

-- The side of a swapped row that is the offered instance, and the other side.
swap_offered :
    (now household : ℕ) (t : ChoreTrade) (i : TaskInstance)
    → IsPair t
    → i.id ≡ t.offered
    → can_swap household t i ≡ true
    → (i.assignee ≡ some t.proposer) × ((swapped now t i).assignee ≡ some t.responder)
swap_offered now household t i pair e h = ground arith

swap_requested :
    (now household : ℕ) (t : ChoreTrade) (i : TaskInstance)
    → IsPair t
    → i.id ≡ t.requested
    → can_swap household t i ≡ true
    → (i.assignee ≡ some t.responder) × ((swapped now t i).assignee ≡ some t.proposer)
swap_requested now household t i pair e h = ground arith

other_kept :
    (household : ℕ) (t : ChoreTrade) (i : TaskInstance)
    → i.id ≢ t.offered
    → i.id ≢ t.requested
    → can_swap household t i ≡ false
other_kept household t i ho hr = ground arith

found-id : (id : ℕ) (xs : List TaskInstance) (i : TaskInstance) → lookup id xs ≡ some i → i.id ≡ id
found-id id xs i h = eq_of_test i.id id (find-test (λ j. j.id == id) xs h)

others_kept :
    (now household : ℕ) (t : ChoreTrade) (xs : List TaskInstance) (id : ℕ)
    → id ≢ t.offered
    → id ≢ t.requested
    → lookup id (swap_table now household t xs) ≡ lookup id xs
others_kept now household t xs id ho hr = elim (Option-cases (lookup id xs)) [
  | inl none' ↦ lookup-swap now household t xs id ∙ rw none'
  | inr (i, found) ↦
      let e = found-id id xs i found in
      let kept = other_kept household t i (rw e ho) (rw e hr) in
      lookup-swap now household t xs id
      ∙ ap (Option.map (λ j. if can_swap household t j then swapped now t j else j)) found
      ∙ rw kept (sym found)
]

one_side :
    (now household : ℕ) (t : ChoreTrade) (xs : List TaskInstance) (id : ℕ) (i : TaskInstance)
    → lookup id xs ≡ some i
    → can_swap household t i ≡ true
    → lookup id (swap_table now household t xs) ≡ some (swapped now t i)
one_side now household t xs id i found h =
    lookup-swap now household t xs id
    ∙ ap (Option.map (λ j. if can_swap household t j then swapped now t j else j)) found
    ∙ rw h

-- An accepted trade was proposed to the responder and still open, and its two instances change
-- hands, while every other instance, the points and the redemptions stay. The table has unique
-- identifiers and every trade is over two instances.
pub accept-Swaps :
    (now household id responder at : ℕ) (s s' : Store)
    → HasKeys s.instances
    → All IsPair s.trades
    → accept now household id responder at s ≡ ok s'
    → (t : ChoreTrade) × (find (can_accept household id responder at) s.trades ≡ some t)
      × Swaps t s s'
unfolding swap_table
accept-Swaps now household id responder at s s' keys pairs done' = OnSuccess-ok _ s' done' (
    accept_rule
      (λ r.
        (t : ChoreTrade) × (find (can_accept household id responder at) s.trades ≡ some t)
        × Swaps t s r)
      now household id responder at s
      λ t found two.
        let pair = find-All IsPair (can_accept household id responder at) s.trades pairs found in
        let ((i, hi, ti), (j, hj, tj)) = both_found household t s.instances keys two in
        let (i_was, i_is) =
          swap_offered now household t i pair (found-id t.offered s.instances i hi) ti in
        let (j_was, j_is) =
          swap_requested now household t j pair (found-id t.requested s.instances j hj) tj in
        (
          t,
          found,
          record {
            offered = (
              i,
              swapped now t i,
              hi,
              one_side now household t s.instances t.offered i hi ti,
              i_was,
              i_is,
            );
            requested = (
              j,
              swapped now t j,
              hj,
              one_side now household t s.instances t.requested j hj tj,
              j_was,
              j_is,
            );
            others = others_kept now household t s.instances;
            same_ledger = refl;
            same_redemptions = refl;
          },
        ))
