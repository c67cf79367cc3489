-- ===== src/Tasks/Rewards/RoundTrip.antt =====
-- Redeeming and taking it back.
use Prim.Native.String.{String}
use nestova.Base.{
  not_any, test_of_eq, OnSuccess-ok, OnSuccess-or_fail, ℕ, ◌≡◌, ◌∙◌, ap, Bool, true, false, ◌&&◌,
  List, ◌∷◌, Option, some, arith, ◌==◌, Bool-cases, inl, inr, any, find, ok, OnSuccess, find-test,
}
use nestova.Base.Int.{ℤ, pos, neg, ◌+ℤ◌, ◌≤ℤ◌, +ℤ_parts, neg_parts, eq_of_parts}
use nestova.Tasks.Schema.{Store, PointEntry, RewardRedemption}
use nestova.Tasks.Ledger.{balance}
use nestova.Tasks.Rewards.{
  redeem_with_debit, deny, refund_redemption, debit_entry, refund_entry, is_resolvable,
}

-- A member's balance after a redemption: the cost is gone from the redeemer's and from no other's.
pub redeem-balance :
    (now entry_id : ℕ) (r : RewardRedemption) (s s' : Store) (cost : ℕ)
    → redeem_with_debit now entry_id r s ≡ ok (s', cost)
    → (pos cost ≤ℤ balance r.household r.member s.ledger)
      × (balance r.household r.member s'.ledger
          ≡ neg (pos cost) +ℤ balance r.household r.member s.ledger)
      × (s'.redemptions ≡ r ∷ s.redemptions)
unfolding redeem_with_debit balance
redeem-balance now entry_id r s s' cost h = ground arith

-- What a redemption adds.
redeem_shape :
    (now entry_id : ℕ) (r : RewardRedemption) (s s' : Store) (cost : ℕ)
    → redeem_with_debit now entry_id r s ≡ ok (s', cost)
    → (s'.ledger ≡ debit_entry now entry_id r cost ∷ s.ledger)
      × (s'.redemptions ≡ r ∷ s.redemptions)
      × (any (λ o. o.id == r.id) s.redemptions ≡ false)
unfolding redeem_with_debit
redeem_shape now entry_id r s s' cost h = ground arith

-- The redemption with the new identifier is the new one.
find_new :
    (hit : RewardRedemption → Bool) (r x : RewardRedemption) (rs : List RewardRedemption)
    → ((o : RewardRedemption) → hit o ≡ true → o.id ≡ r.id)
    → any (λ o. o.id == r.id) rs ≡ false
    → find hit (r ∷ rs) ≡ some x
    → x ≡ r
unfolding find
find_new hit r x rs ids fresh h = elim (Bool-cases (hit r)) [
  | inl t ↦ ground (arith, h, t)
  | inr t ↦
      let found : find hit rs ≡ some x = ground (arith, h, t) in
      absurd (
        ground
          (arith, not_any (λ o. o.id == r.id) hit rs fresh found, ids x (find-test hit rs found)))
]

-- A debit and its refund on top of a ledger.
abbrev Refunded : ℕ → ℕ → ℕ → ℕ → RewardRedemption → ℕ → List PointEntry → Store → Type 0
Refunded now entry_id later refund_id r cost es t =
    t.ledger
    ≡ refund_entry later refund_id r.household r.member r.id (neg (neg (pos cost)))
      ∷ debit_entry now entry_id r cost
      ∷ es

-- The refund of the newest debit.
refund-cons :
    (now entry_id later refund_id : ℕ) (r : RewardRedemption) (cost : ℕ) (es : List PointEntry)
    (s : Store)
    → s.ledger ≡ debit_entry now entry_id r cost ∷ es
    → OnSuccess
        (Refunded now entry_id later refund_id r cost es)
        (refund_redemption later refund_id r.household r.member r.id s)
unfolding refund_redemption find
refund-cons now entry_id later refund_id r cost es s e =
    rw e (ground (arith, test_of_eq r.household, test_of_eq r.id))

debit_and_refund :
    (now entry_id later refund_id : ℕ) (r : RewardRedemption) (cost : ℕ) (es : List PointEntry)
    (household member : ℕ)
    → balance household member (
        refund_entry later refund_id r.household r.member r.id (neg (neg (pos cost)))
        ∷ debit_entry now entry_id r cost
        ∷ es)
      ≡ balance household member es
unfolding balance
debit_and_refund now entry_id later refund_id r cost es household member =
    elim (Bool-cases (r.household == household && r.member == member)) [
      | inl t ↦ rw t (refunded (pos cost) (balance household member es))
      | inr t ↦ rw t
    ]
  where
    refunded : (c z : ℤ) → neg (neg c) +ℤ (neg c +ℤ z) ≡ z
    refunded c z = eq_of_parts _ z (
        omega (
          arith,
          +ℤ_parts (neg (neg c)) (neg c +ℤ z),
          +ℤ_parts (neg c) z,
          neg_parts (neg c),
          neg_parts c,
        ))

-- A redemption that is denied before anything else happens leaves every balance as it was before
-- the redemption.
pub redeem-deny :
    (now entry_id later refund_id : ℕ) (reason : Option String) (r : RewardRedemption)
    (s s' s'' : Store) (cost : ℕ)
    → redeem_with_debit now entry_id r s ≡ ok (s', cost)
    → deny later refund_id r.household r.id reason s' ≡ ok s''
    → (household member : ℕ)
    → balance household member s''.ledger ≡ balance household member s.ledger
unfolding deny
redeem-deny now entry_id later refund_id reason r s s' s'' cost h k household member =
    let (ledger', redemptions', fresh) = redeem_shape now entry_id r s s' cost h in
    let hit = is_resolvable r.household r.id s'.rewards in
    ap (balance household member) (
      OnSuccess-ok (Refunded now entry_id later refund_id r cost s.ledger) s'' k (
        OnSuccess-or_fail (Refunded now entry_id later refund_id r cost s.ledger)
          (find hit s'.redemptions) _ _
          λ x found.
            let same : x ≡ r =
              find_new hit r x s.redemptions (λ o e. ground arith) fresh
                (rw redemptions' at found) in
            rw (ap (λ (o : RewardRedemption). o.member) same)
              (refund-cons now entry_id later refund_id r cost s.ledger _ ledger')))
    ∙ debit_and_refund now entry_id later refund_id r cost s.ledger household member
