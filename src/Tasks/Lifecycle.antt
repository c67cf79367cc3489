-- ===== src/Tasks/Lifecycle.antt =====
-- The lifecycle of a task instance: what an operation may do to a row, and the row updates of
-- internal/tasks/adapter/postgres.go.
use mathlib.Core.Option
use nestova.Base.{
  any, update, ◌∷◌, sym, ap, ◌∙◌, ℕ, ◌≡◌, refl, inl, inr, Bool, true, false, List, Option, some,
  arith, ◌==◌, if◌then◌else◌, Bool-cases, find, update, find-update, find-cons, find-test, not_any,
  subst,
}
use nestova.Clock.{Time}
use nestova.Tasks.Schema.{ChoreTrade, TaskInstance, InstanceStatus, done, skipped, overdue, is_open}
use nestova.Tasks.Instances.{inserted}
use nestova.Tasks.Claims.{claimed, reverted}
use nestova.Tasks.Closing.{completed, skipped_row, is_terminal}
use nestova.Tasks.Writes.{
  Change, claims, completes, skips, reverts, lapses, swaps, ◌⟶◌, keep, change, add,
}
use nestova.Tasks.Overdue.{marked_overdue}
use nestova.Tasks.Trades.{swapped}

-- The states that an instance may reach from a state in one operation.
abbrev may_become : InstanceStatus → InstanceStatus → Bool
may_become InstanceStatus.pending _ = true
may_become overdue InstanceStatus.pending = false
may_become overdue _ = true
may_become done done = true
may_become done _ = false
may_become skipped skipped = true
may_become skipped _ = false

-- An instance keeps what it is, moves along the lifecycle, and does not change once it is terminal.
pub record Moves (i j : TaskInstance) : Type 0 where
  pub same_id : j.id ≡ i.id
  pub same_task : j.recurring_task ≡ i.recurring_task
  pub same_household : j.household ≡ i.household
  pub same_due_on : j.due_on ≡ i.due_on
  pub same_kind : j.kind ≡ i.kind
  pub status_moves : may_become i.status j.status ≡ true
  pub frozen : is_terminal i.status ≡ true → j ≡ i

Moves-refl : (i : TaskInstance) → Moves i i
Moves-refl i = record {
  same_id = refl;
  same_task = refl;
  same_household = refl;
  same_due_on = refl;
  same_kind = refl;
  status_moves = stays i.status;
  frozen = λ _. refl;
}
  where
    stays : (t : InstanceStatus) → may_become t t ≡ true
    stays t = ground arith

claimed-Moves :
    (now : Time) (member : ℕ) (i : TaskInstance)
    → is_open i.status ≡ true
    → Moves i (claimed now member i)
unfolding claimed
claimed-Moves now member i h = ground arith

completed-Moves :
    (now : Time) (by : ℕ) (at : Time) (i : TaskInstance)
    → is_open i.status ≡ true
    → Moves i (completed now by at i)
unfolding completed
completed-Moves now by at i h = ground arith

skipped-Moves :
    (now : Time) (i : TaskInstance) → is_open i.status ≡ true → Moves i (skipped_row now i)
unfolding skipped_row
skipped-Moves now i h = ground arith

reverted-Moves :
    (now : Time) (i : TaskInstance) → is_open i.status ≡ true → Moves i (reverted now i)
unfolding reverted
reverted-Moves now i h = ground arith

overdue-Moves :
    (now : Time) (i : TaskInstance) → is_open i.status ≡ true → Moves i (marked_overdue now i)
overdue-Moves now i h = ground arith

swapped-Moves :
    (now : Time) (t : ChoreTrade) (i : TaskInstance)
    → is_open i.status ≡ true
    → Moves i (swapped now t i)
swapped-Moves now t i h = ground arith

-- The row with an identifier.
abbrev pub lookup : ℕ → List TaskInstance → Option TaskInstance
lookup id = find λ i. i.id == id

-- Every row of the first table is in the second, moved along.
abbrev pub Advances : List TaskInstance → List TaskInstance → Type 0
Advances xs ys =
    (id : ℕ) (i : TaskInstance)
    → lookup id xs ≡ some i
    → (j : TaskInstance) × (lookup id ys ≡ some j) × Moves i j

pub Advances-refl : (xs : List TaskInstance) → Advances xs xs
Advances-refl xs id i h = (i, h, Moves-refl i)

update-Advances :
    (p : TaskInstance → Bool) (f : TaskInstance → TaskInstance) (xs : List TaskInstance)
    → ((i : TaskInstance) → (f i).id ≡ i.id)
    → ((i : TaskInstance) → p i ≡ true → Moves i (f i))
    → Advances xs (update p f xs)
update-Advances p f xs ids moves id i h = elim (Bool-cases (p i)) [
  | inl t ↦ (f i, found ∙ rw t, moves i t)
  | inr t ↦ (i, found ∙ rw t, Moves-refl i)
]
  where
    found : lookup id (update p f xs) ≡ some (if p i then f i else i)
    found =
        find-update (λ j. j.id == id) p f xs (λ x. ap (λ k. k == id) (ids x))
        ∙ ap (Option.map (λ x. if p x then f x else x)) h

Moves-trans : {i j k : TaskInstance} → Moves i j → Moves j k → Moves i k
Moves-trans {i} {j} {k} m n = record {
  same_id = n.same_id ∙ m.same_id;
  same_task = n.same_task ∙ m.same_task;
  same_household = n.same_household ∙ m.same_household;
  same_due_on = n.same_due_on ∙ m.same_due_on;
  same_kind = n.same_kind ∙ m.same_kind;
  status_moves = chain i.status j.status k.status m.status_moves n.status_moves;
  frozen =
      λ t. n.frozen (subst (λ z. is_terminal z.status ≡ true) (sym (m.frozen t)) t) ∙ m.frozen t;
}
  where
    chain :
        (a b c : InstanceStatus)
        → may_become a b ≡ true
        → may_become b c ≡ true
        → may_become a c ≡ true
    chain a b c h k = ground arith

pub Advances-trans :
    (xs ys zs : List TaskInstance) → Advances xs ys → Advances ys zs → Advances xs zs
Advances-trans xs ys zs a b id i h =
    let (j, hj, m) = a id i h in let (k, hk, n) = b id j hj in (k, hk, Moves-trans m n)

-- A new row shadows none.
add-Advances :
    (now : Time) (inst : TaskInstance) (xs : List TaskInstance)
    → any (λ i. i.id == inst.id) xs ≡ false
    → Advances xs (inserted now inst ∷ xs)
add-Advances now inst xs fresh id i h = (
  i,
  find-cons (λ j. j.id == id) (inserted now inst) xs
        (other id i h (not_any (λ j. j.id == inst.id) (λ j. j.id == id) xs fresh h))
      ∙ h,
  Moves-refl i,
)
  where
    other :
        (id : ℕ) (i : TaskInstance)
        → lookup id xs ≡ some i
        → (i.id == inst.id) ≡ false
        → (inst.id == id) ≡ false
    other id i h n = ground (arith, find-test (λ j. j.id == id) xs h)

pub Change-id :
    {p : TaskInstance → Bool} {f : TaskInstance → TaskInstance}
    → Change p f
    → (i : TaskInstance) → (f i).id ≡ i.id
unfolding claimed completed skipped_row reverted
Change-id (claims now member h) i = refl
Change-id (completes now by at h) i = refl
Change-id (skips now h) i = refl
Change-id (reverts now h) i = refl
Change-id (lapses now h) i = refl
Change-id (swaps now t h) i = refl

Change-Moves :
    {p : TaskInstance → Bool} {f : TaskInstance → TaskInstance}
    → Change p f
    → (i : TaskInstance) → p i ≡ true
    → Moves i (f i)
Change-Moves (claims now member h) i e = claimed-Moves now member i (ground (arith, h i e))
Change-Moves (completes now by at h) i e = completed-Moves now by at i (h i e)
Change-Moves (skips now h) i e = skipped-Moves now i (h i e)
Change-Moves (reverts now h) i e = reverted-Moves now i (h i e)
Change-Moves (lapses now h) i e = overdue-Moves now i (ground (arith, h i e))
Change-Moves (swaps now t h) i e = swapped-Moves now t i (ground (arith, h i e))

pub ⟶-Advances : {xs ys : List TaskInstance} → xs ⟶ ys → Advances xs ys
⟶-Advances {xs} keep = Advances-refl xs
⟶-Advances {xs} (change {ys = zs} w p f c) =
    Advances-trans xs zs (update p f zs) (⟶-Advances w)
      (update-Advances p f zs (Change-id c) (Change-Moves c))
⟶-Advances {xs} (add {ys = zs} w now inst a) =
    Advances-trans xs zs (inserted now inst ∷ zs) (⟶-Advances w) (add-Advances now inst zs a.new_id)
