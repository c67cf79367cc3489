-- ===== src/Tasks/Rows.antt =====
-- The invariants of the task_instance table: the checks of the migrations, what the claim columns
-- mean, the primary key, and the one open standing instance of an as-needed task.
use nestova.Base.{
  ap, Bool-cases, ℕ, ◌≤◌, ◌≡◌, Bool, true, false, ◌&&◌, List, arith, ◌==◌, any, count, All,
  All-update, count-update, count-update-le, count-none, is_none,
}
use nestova.Tasks.Schema.{TaskInstance, overdue, done, standing, is_open}
use nestova.Tasks.Instances.{inserted, is_open_standing, kind_matches_due_on}
use nestova.Tasks.Claims.{claimed, reverted}
use nestova.Tasks.Closing.{completed, skipped_row}
use nestova.Tasks.Writes.{
  Change, claims, completes, skips, reverts, lapses, swaps, ◌⟶◌, keep, change, add, Admits,
}
use nestova.Tasks.Lifecycle.{Change-id}

-- A done row, and no other, has its completion; a claim has its time and its claimant is the
-- assignee; only an open row is claimed; a standing row has no due date and is never overdue.
pub record RowIsValid (i : TaskInstance) : Type 0 where
  pub done_at : (i.status ≡ done) → is_none i.completed_at ≡ false
  pub only_done_at : (i.status ≡ done → ⊥) → is_none i.completed_at && is_none i.completed_by ≡ true
  pub claim_timed : is_none i.claimed_by ≡ is_none i.claimed_at
  pub expiry_claimed : is_none i.claim_expires_at ≡ false → is_none i.claimed_by ≡ false
  pub claimant_assigned : is_none i.claimed_by ≡ false → i.assignee ≡ i.claimed_by
  pub claim_open : is_none i.claimed_by ≡ false → is_open i.status ≡ true
  pub kind_dated : kind_matches_due_on i.kind i.due_on ≡ true
  pub standing_in_time : i.kind ≡ standing → i.status ≡ overdue → ⊥

Change-IsValid :
    {p : TaskInstance → Bool} {f : TaskInstance → TaskInstance}
    → Change p f
    → (i : TaskInstance) → p i ≡ true
    → RowIsValid i
    → RowIsValid (f i)
unfolding claimed completed skipped_row reverted
Change-IsValid (claims now member h) i e v = ground (arith, h i e)
Change-IsValid (completes now by at h) i e v = ground (arith, h i e)
Change-IsValid (skips now h) i e v = ground (arith, h i e)
Change-IsValid (reverts now h) i e v = ground (arith, h i e)
Change-IsValid (lapses now h) i e v = ground (arith, h i e)
Change-IsValid (swaps now t h) i e v = ground (arith, h i e)

inserted-IsValid :
    (now : ℕ) (inst : TaskInstance) {xs : List TaskInstance}
    → Admits xs inst
    → RowIsValid (inserted now inst)
inserted-IsValid now inst a = ground arith

⟶-IsValid : {xs ys : List TaskInstance} → xs ⟶ ys → All RowIsValid xs → All RowIsValid ys
⟶-IsValid keep v = v
⟶-IsValid (change {ys = zs} w p f c) v =
    All-update RowIsValid p f zs (Change-IsValid c) (⟶-IsValid w v)
⟶-IsValid (add w now inst a) v = (inserted-IsValid now inst a, ⟶-IsValid w v)

-- The primary key: an identifier stands in at most one row.
abbrev pub HasKeys : List TaskInstance → Type 0
HasKeys xs = (id : ℕ) → count (λ i. i.id == id) xs ≤ 1

⟶-HasKeys : {xs ys : List TaskInstance} → xs ⟶ ys → HasKeys xs → HasKeys ys
unfolding count
⟶-HasKeys keep k id = k id
⟶-HasKeys (change {ys = zs} w p f c) k id = omega (
  arith,
  count-update (λ i. i.id == id) p f zs (λ i _. ap (λ n. n == id) (Change-id c i)),
  ⟶-HasKeys w k id,
)
⟶-HasKeys (add {ys = zs} w now inst a) k id = ground (
  arith,
  ⟶-HasKeys w k id,
  count-none (λ i. i.id == inst.id) zs a.new_id,
  Bool-cases (inst.id == id),
)

-- A task has at most one open standing instance.
abbrev HasOneStanding : List TaskInstance → Type 0
HasOneStanding xs = (task : ℕ) → count (is_open_standing task) xs ≤ 1

Change-standing :
    {p : TaskInstance → Bool} {f : TaskInstance → TaskInstance}
    → Change p f
    → (task : ℕ) (i : TaskInstance) → is_open_standing task (f i) ≡ true
    → is_open_standing task i ≡ true
unfolding claimed completed skipped_row reverted
Change-standing (claims now member h) task i e = e
Change-standing (completes now by at h) task i e = ground arith
Change-standing (skips now h) task i e = ground arith
Change-standing (reverts now h) task i e = e
Change-standing (lapses now h) task i e = ground arith
Change-standing (swaps now t h) task i e = e

⟶-HasOneStanding : {xs ys : List TaskInstance} → xs ⟶ ys → HasOneStanding xs → HasOneStanding ys
unfolding count
⟶-HasOneStanding keep o task = o task
⟶-HasOneStanding (change {ys = zs} w p f c) o task = omega (
  arith,
  count-update-le (is_open_standing task) p f zs (λ i _ e. Change-standing c task i e),
  ⟶-HasOneStanding w o task,
)
⟶-HasOneStanding (add {ys = zs} w now inst a) o task = ground (
  arith,
  ⟶-HasOneStanding w o task,
  a.one_open,
  count-none (is_open_standing inst.recurring_task) zs,
  Bool-cases (inst.recurring_task == task),
  Bool-cases (any (is_open_standing inst.recurring_task) zs),
)

-- What holds of the table between two operations.
pub record TableIsValid (xs : List TaskInstance) : Type 0 where
  pub rows : All RowIsValid xs
  pub keys : HasKeys xs
  pub standing_rows : HasOneStanding xs

pub ⟶-TableIsValid : {xs ys : List TaskInstance} → xs ⟶ ys → TableIsValid xs → TableIsValid ys
⟶-TableIsValid w v = record {
  rows = ⟶-IsValid w v.rows;
  keys = ⟶-HasKeys w v.keys;
  standing_rows = ⟶-HasOneStanding w v.standing_rows;
}
