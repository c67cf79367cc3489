-- ===== src/Tasks/Ledger/Soundness.antt =====
-- A sound point ledger, and the entries that keep it so.
use nestova.Base.{
  count, count-none, ◌≤◌, refl, false, Result, OnSuccess, ℕ, ◌≡◌, ◌⊎◌, inl, inr, ◌&&◌, List, ◌∷◌,
  Option, none, some, min, arith, ◌==◌, Bool-cases, eq_of_test, any, find, All,
}
use nestova.Base.Int.{ℤ, pos, negsuc, pos_part, ◌+ℤ◌, ◌≤ℤ◌, neg, +ℤ_parts, neg_parts}
use nestova.Tasks.Schema.{
  same_source_type, Store, Error, PointEntry, RecurringTask, redemption, task_instance,
}
use nestova.Tasks.Ledger.{
  balance, ExpiredClaimRow, penalty_entry, is_penalized, insert_claim_expiry_penalty, award_entry,
  award_points, award, is_about,
}

-- Not an award for completing an instance.
abbrev IsNoAward : PointEntry → Type 0
IsNoAward e = same_source_type e.source_type task_instance ≡ false

-- A redemption's entry is a debit.
abbrev pub IsDebit : PointEntry → Type 0
IsDebit e = e.source_type ≡ redemption → e.points ≤ℤ pos 0

pub record IsSound (ledger : List PointEntry) : Type 0 where
  pub nonneg : (household member : ℕ) → pos 0 ≤ℤ balance household member ledger
  pub debits : All IsDebit ledger
  pub awarded_once : (instance_id : ℕ) → count (is_about task_instance instance_id) ledger ≤ 1

-- The same of a store, and of a result that has one.
abbrev pub StoreSound : Store → Type 0
StoreSound s = IsSound s.ledger

abbrev pub Soundly : Result Error Store → Type 0
Soundly = OnSuccess StoreSound

balance-cons_self :
    (e : PointEntry) (es : List PointEntry)
    → balance e.household e.member (e ∷ es) ≡ e.points +ℤ balance e.household e.member es
unfolding balance
balance-cons_self e es = ground arith

-- An entry for another member leaves the balance.
balance-cons :
    (household member : ℕ) (e : PointEntry) (es : List PointEntry)
    → ((e.household ≡ household)
        × (e.member ≡ member)
        × (balance household member (e ∷ es) ≡ e.points +ℤ balance household member es))
      ⊎ (balance household member (e ∷ es) ≡ balance household member es)
unfolding balance
balance-cons household member e es = elim (Bool-cases (e.household == household)) [
  | inr n ↦ inr (rw n)
  | inl p ↦ elim (Bool-cases (e.member == member)) [
    | inr n ↦ inr (rw (p, n))
    | inl q ↦ inl (eq_of_test _ _ p, eq_of_test _ _ q, rw (p, q))
  ]
]

pub IsSound-cons :
    (e : PointEntry) (es : List PointEntry)
    → IsSound es
    → IsDebit e
    → ((instance_id : ℕ) → count (is_about task_instance instance_id) (e ∷ es) ≤ 1)
    → pos 0 ≤ℤ e.points +ℤ balance e.household e.member es
    → IsSound (e ∷ es)
IsSound-cons e es v d once h = record {
  nonneg = λ hh m. elim (balance-cons hh m e es) [
    | inl (p, q, r) ↦ rw (r, ← p, ← q) h
    | inr r ↦ rw r (v.nonneg hh m)
  ];
  debits = (d, v.debits);
  awarded_once = once;
}

-- An entry that is no award leaves the awards as they are.
pub no_award_once :
    (e : PointEntry) (es : List PointEntry)
    → IsSound es
    → IsNoAward e
    → (instance_id : ℕ) → count (is_about task_instance instance_id) (e ∷ es) ≤ 1
unfolding count
no_award_once e es v n id = ground (arith, v.awarded_once id)

-- The first award for an instance.
award_once :
    (e : PointEntry) (es : List PointEntry) (instance_id : ℕ)
    → IsSound es
    → e.source ≡ some instance_id
    → any (is_about task_instance instance_id) es ≡ false
    → (id : ℕ) → count (is_about task_instance id) (e ∷ es) ≤ 1
unfolding count
award_once e es instance_id v h fresh id = ground (
  arith,
  v.awarded_once id,
  count-none (is_about task_instance instance_id) es fresh,
  Bool-cases (instance_id == id),
)

-- A credit.
pub IsSound-credit :
    (e : PointEntry) (es : List PointEntry)
    → IsSound es
    → IsDebit e
    → ((instance_id : ℕ) → count (is_about task_instance instance_id) (e ∷ es) ≤ 1)
    → pos 0 ≤ℤ e.points
    → IsSound (e ∷ es)
IsSound-credit e es v d once h = IsSound-cons e es v d once (
    omega
      (arith, +ℤ_parts e.points (balance e.household e.member es), v.nonneg e.household e.member))

debit_le : (z : ℤ) (wanted : ℕ) → pos 0 ≤ℤ z → pos 0 ≤ℤ neg (pos (min wanted (pos_part z))) +ℤ z
debit_le (pos n) wanted h =
    omega (arith, +ℤ_parts (neg (pos (min wanted n))) (pos n), neg_parts (pos (min wanted n)))
debit_le (negsuc n) wanted h = absurd (omega arith)

-- A penalty is at most the balance.
pub penalty-IsSound :
    (now id : ℕ) (row : ExpiredClaimRow) (wanted : ℕ) (es : List PointEntry)
    → IsSound es
    → IsSound (insert_claim_expiry_penalty now id row wanted es).0
unfolding insert_claim_expiry_penalty
penalty-IsSound now id row wanted es v =
    let penalty = min wanted (pos_part (balance row.household row.claimed_by es)) in
    let cons : IsSound (penalty_entry now id row penalty ∷ es) =
      IsSound-cons (penalty_entry now id row penalty) es v (λ e. cc)
        (no_award_once (penalty_entry now id row penalty) es v refl)
        (debit_le (balance row.household row.claimed_by es) wanted
          (v.nonneg row.household row.claimed_by)) in
    elim (Bool-cases (penalty == 0)) [
      | inl p ↦ rw p v
      | inr n ↦ elim (Bool-cases (is_penalized row es)) [
        | inl q ↦ rw (n, q) v
        | inr q ↦ rw (n, q) cons
      ]
    ]

award_points-IsSound :
    (now id household member instance_id : ℕ) (task : Option RecurringTask) (es : List PointEntry)
    → IsSound es
    → IsSound (award_points now id household member instance_id task es)
award_points-IsSound now id household member instance_id none es v = v
award_points-IsSound now id household member instance_id (some t) es v =
    let e = award_entry now id household member instance_id t.points in
    elim (Bool-cases (t.points == 0)) [
      | inl p ↦ rw p v
      | inr n ↦ elim (Bool-cases (any (is_about task_instance instance_id) es)) [
        | inl q ↦ rw (n, q) v
        | inr q ↦
            rw (n, q)
              (IsSound-credit e es v (λ p. cc) (award_once e es instance_id v refl q) (omega arith))
      ]
    ]

pub award-IsSound :
    (now id household member instance_id task : ℕ) (tasks : List RecurringTask)
    (es : List PointEntry)
    → IsSound es
    → IsSound (award now id household member instance_id task tasks es)
unfolding award
award-IsSound now id household member instance_id task tasks es =
    award_points-IsSound now id household member instance_id
      (find (λ t. t.id == task && t.household == household) tasks) es
