-- ===== src/Tasks/Writes.antt =====
-- What an operation may write to the task_instance table: changes of rows, each under the guard of
-- its statement, and inserts of new rows. The invariants of the table are proved of these alone.
use nestova.Base.{
  ℕ, ◌≡◌, refl, Bool, true, false, ◌&&◌, ◌||◌, List, ◌∷◌, Option, none, arith, ◌==◌, is_key,
  is_none, any, update, OnSuccess, Option-cases,
}
use nestova.Clock.{Time}
use nestova.Tasks.Schema.{
  Store, TaskInstance, InstanceKind, scheduled, standing, ChoreTrade, is_open, is_pending,
  is_scheduled,
}
use nestova.Tasks.Instances.{
  insert, insert_rule, inserted, new_instance, is_open_standing, kind_matches_due_on,
  respawn_if_standing,
}
use nestova.Tasks.Claims.{claimed, reverted, penalize_lapsed_claim, lapsed_claim}
use nestova.Tasks.Closing.{completed, skipped_row}
use nestova.Tasks.Overdue.{marked_overdue}
use nestova.Tasks.Trades.{swapped}

-- The guard `p` of an UPDATE implies the guard `q`.
abbrev pub Implies : (TaskInstance → Bool) → (TaskInstance → Bool) → Type 0
Implies p q = (i : TaskInstance) → p i ≡ true → q i ≡ true

abbrev pub claimable : ℕ → TaskInstance → Bool
claimable member i = is_open i.status && (is_none i.assignee || is_key i.assignee member)

abbrev pub is_open_instance : TaskInstance → Bool
is_open_instance i = is_open i.status

abbrev is_waiting : TaskInstance → Bool
is_waiting i = is_pending i.status && is_scheduled i.kind

abbrev is_swappable : TaskInstance → Bool
is_swappable i = is_waiting i && is_none i.claimed_by

-- The updates of the table, with what their guards guarantee of a row.
pub data Change (p : TaskInstance → Bool) : (TaskInstance → TaskInstance) → Type 0 where
  claims : (now : Time) (member : ℕ) → Implies p (claimable member) → Change p (claimed now member)
  completes :
      (now : Time) (by : ℕ) (at : Time)
      → Implies p is_open_instance
      → Change p (completed now by at)
  skips : (now : Time) → Implies p is_open_instance → Change p (skipped_row now)
  reverts : (now : Time) → Implies p is_open_instance → Change p (reverted now)
  lapses : (now : Time) → Implies p is_waiting → Change p (marked_overdue now)
  swaps : (now : Time) (t : ChoreTrade) → Implies p is_swappable → Change p (swapped now t)

-- A row that the constraints admit.
pub record Admits (xs : List TaskInstance) (inst : TaskInstance) : Type 0 where
  pub new_id : any (λ i. i.id == inst.id) xs ≡ false
  pub one_open :
      (is_open_standing inst.recurring_task inst && any (is_open_standing inst.recurring_task) xs)
      ≡ false
  pub dated : kind_matches_due_on inst.kind inst.due_on ≡ true
  pub starts_pending : is_pending inst.status ≡ true

infix 40 ◌⟶◌
-- The writes of one operation, in order.
pub data ◌⟶◌ (xs : List TaskInstance) : List TaskInstance → Type 0 where
  keep : xs ⟶ xs
  change :
      {ys : List TaskInstance}
      → xs ⟶ ys
      → (p : TaskInstance → Bool) (f : TaskInstance → TaskInstance) → Change p f
      → xs ⟶ update p f ys
  add :
      {ys : List TaskInstance}
      → xs ⟶ ys
      → (now : Time) (inst : TaskInstance) → Admits ys inst
      → xs ⟶ (inserted now inst ∷ ys)

abbrev pub WritesTo : List TaskInstance → Store → Type 0
WritesTo xs s = xs ⟶ s.instances

pub same-⟶ : {xs ys : List TaskInstance} → ys ≡ xs → xs ⟶ ys
same-⟶ {xs} e = rw e keep

-- The callers of Insert build a pending row.
pub insert-⟶ :
    (now : Time) (id task household : ℕ) (assignee : Option ℕ) (due_on : Option Time)
    (kind : InstanceKind) (xs : List TaskInstance) (s : Store)
    → xs ⟶ s.instances
    → OnSuccess (WritesTo xs) (insert now (new_instance id task household assignee due_on kind) s)
insert-⟶ now id task household assignee due_on kind xs s w =
    let inst = new_instance id task household assignee due_on kind in
    insert_rule (WritesTo xs) now inst s λ dated fresh single.
      add w now inst
        (record { new_id = fresh; one_open = single; dated = dated; starts_pending = refl })

pub respawn-⟶ :
    (now : Time) (new_id : ℕ) (kind : InstanceKind) (task household : ℕ) (xs : List TaskInstance)
    (s : Store)
    → xs ⟶ s.instances
    → OnSuccess (WritesTo xs) (respawn_if_standing now new_id kind task household s)
unfolding respawn_if_standing
respawn-⟶ now new_id scheduled task household xs s w = w
respawn-⟶ now new_id standing task household xs s w =
    insert-⟶ now new_id task household none none standing xs s w

pub penalize_lapsed_claim-instances :
    (now : Time) (entry_id household id : ℕ) (at : Time) (s : Store)
    → (penalize_lapsed_claim now entry_id household id at s).instances ≡ s.instances
unfolding penalize_lapsed_claim
penalize_lapsed_claim-instances now entry_id household id at s =
    ground (arith, Option-cases (lapsed_claim household id at s))
