-- ===== src/Tasks/Claims.antt =====
-- Claims on task instances: internal/tasks/adapter/postgres.go (Claim, penalizeLapsedClaim,
-- SweepExpiredClaims). Each operation is one transaction, and transactions run one after another,
-- which the row locks and the advisory lock on a member's balance stand for in the source.
pub mod Sweep
pub mod Outcome
use nestova.Base.{
  ℕ, ◌+◌, Bool, false, ◌&&◌, ◌||◌, List, [], ◌∷◌, Option, none, some, leb, if◌then◌else◌, ◌==◌,
  is_key, is_none, any, find, select, update, Result, ok, err,
}
use nestova.Clock.{Time}
use nestova.Tasks.Schema.{
  Store, PointEntry, TaskInstance, RecurringTask, Error, instance_not_found,
  instance_in_terminal_state, instance_already_claimed, is_open, claim_window, claim_expiry_penalty,
}
use nestova.Tasks.Ledger.{ExpiredClaimRow, insert_claim_expiry_penalty}
use nestova.Tasks.Instances.{is_row, is_open_row}

-- The row after `UPDATE` in Claim: a repeated claim keeps the claim's times, and only a claim on an
-- unassigned instance runs out.
unfoldable pub claimed : Time → ℕ → TaskInstance → TaskInstance
claimed now member i =
    let again = is_key i.claimed_by member in
    record i {
      assignee = some member;
      claimed_by = some member;
      claimed_at = if again then i.claimed_at else some now;
      claim_expires_at =
          if again
          then i.claim_expires_at
          else (if is_none i.assignee then some (now + claim_window) else none);
      claim_warned_at = if again then i.claim_warned_at else none;
      updated_at = now;
    }

abbrev pub can_claim : ℕ → ℕ → ℕ → TaskInstance → Bool
can_claim household id member i =
    is_open_row household id i && (is_none i.assignee || is_key i.assignee member)

abbrev disambiguate_claim : Option TaskInstance → Error
disambiguate_claim none = instance_not_found
disambiguate_claim (some i) =
    if is_open i.status then instance_already_claimed else instance_in_terminal_state

unfoldable pub claim : Time → ℕ → ℕ → ℕ → Store → Result Error Store
claim now household id member s =
    if any (can_claim household id member) s.instances
    then ok (record s {
      instances = update (can_claim household id member) (claimed now member) s.instances;
    })
    else err (disambiguate_claim (find (is_row household id) s.instances))

-- `claim_expires_at <= $1`, false at NULL.
abbrev is_lapsed : Time → Option Time → Bool
is_lapsed at none = false
is_lapsed at (some t) = leb t at

-- The claim of a row, when both of its parts are there.
abbrev claim_of : TaskInstance → Option ExpiredClaimRow
claim_of i = elim i.claimed_by [
  | none ↦ none
  | some who ↦ elim i.claimed_at [
    | none ↦ none
    | some when ↦ some (record {
      instance_id = i.id;
      household = i.household;
      recurring_task = i.recurring_task;
      claimed_by = who;
      claimed_at = when;
    })
  ]
]

-- The row of the instance whose claim has lapsed, if the task that it is joined with is there.
unfoldable pub lapsed_claim : ℕ → ℕ → Time → Store → Option (ExpiredClaimRow × ℕ)
lapsed_claim household id at s =
    elim (find (λ i. is_open_row household id i && is_lapsed at i.claim_expires_at) s.instances) [
      | none ↦ none
      | some i ↦ elim (find (λ t. t.id == i.recurring_task) s.tasks) [
        | none ↦ none
        | some t ↦ elim (claim_of i) [ none ↦ none | some row ↦ some (row, t.points) ]
      ]
    ]

unfoldable pub penalize_lapsed_claim : Time → ℕ → ℕ → ℕ → Time → Store → Store
penalize_lapsed_claim now entry_id household id at s = elim (lapsed_claim household id at s) [
  | none ↦ s
  | some (row, points) ↦ record s {
    ledger =
        (insert_claim_expiry_penalty now entry_id row (claim_expiry_penalty points) s.ledger).0;
  }
]

-- The WHERE of the sweep.
abbrev pub is_expired : Time → TaskInstance → Bool
is_expired as_of i = is_lapsed as_of i.claim_expires_at && is_open i.status

unfoldable pub reverted : Time → TaskInstance → TaskInstance
reverted now i = record i {
  assignee = none;
  claimed_by = none;
  claimed_at = none;
  claim_expires_at = none;
  claim_warned_at = none;
  updated_at = now;
}

-- The claims of the rows that have one; the others are skipped.
unfoldable pub claims_of : List TaskInstance → List ExpiredClaimRow
claims_of [] = []
claims_of (i ∷ is) = elim (claim_of i) [ none ↦ claims_of is | some row ↦ row ∷ claims_of is ]

-- `sort.SliceStable` by claimant.
unfoldable pub insert_sorted : ExpiredClaimRow → List ExpiredClaimRow → List ExpiredClaimRow
insert_sorted row [] = row ∷ []
insert_sorted row (r ∷ rs) =
    if leb row.claimed_by r.claimed_by then row ∷ r ∷ rs else r ∷ insert_sorted row rs

unfoldable pub sort_by_claimant : List ExpiredClaimRow → List ExpiredClaimRow
unfolding insert_sorted
sort_by_claimant [] = []
sort_by_claimant (r ∷ rs) = insert_sorted r (sort_by_claimant rs)

-- The points of a task, 0 when it is not in the map.
abbrev points_of : Option RecurringTask → ℕ
points_of none = 0
points_of (some t) = t.points

-- The notice for one expired claim: the row and the points taken.
abbrev ExpiredClaim : Type 0
ExpiredClaim = ExpiredClaimRow × ℕ

-- The loop of SweepExpiredClaims; `new_id n` is the identifier drawn in round n.
unfoldable pub penalize_all :
    Time
    → (ℕ → ℕ)
    → ℕ
    → List RecurringTask
    → List ExpiredClaimRow
    → List PointEntry
    → List PointEntry × List ExpiredClaim
penalize_all now new_id n tasks [] ledger = (ledger, [])
penalize_all now new_id n tasks (row ∷ rows) ledger =
    let points = points_of (find (λ t. t.id == row.recurring_task) tasks) in
    let (ledger', penalty) =
      insert_claim_expiry_penalty now (new_id n) row (claim_expiry_penalty points) ledger in
    let (ledger'', claims) = penalize_all now new_id (n + 1) tasks rows ledger' in
    (ledger'', (row, penalty) ∷ claims)

unfoldable pub sweep_expired_claims : Time → (ℕ → ℕ) → Time → Store → Store × List ExpiredClaim
sweep_expired_claims now new_id as_of s =
    let rows = sort_by_claimant (claims_of (select (is_expired as_of) s.instances)) in
    let (ledger, claims) = penalize_all now new_id 0 s.tasks rows s.ledger in
    (
      record s {
        instances = update (is_expired as_of) (reverted now) s.instances;
        ledger = ledger;
      },
      claims,
    )
