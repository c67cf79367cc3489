-- ===== src/Generator/Assignment.antt =====
-- What materialiseTask of internal/tasks/app/generator.go inserts.
use nestova.Base.{
  ℕ, suc, ◌+◌, ◌-◌, ◌<◌, ◌≡◌, ◌≢◌, ◌⊎◌, refl, subst, ap, ◌∙◌, not, List, [], ◌∷◌, ◌++◌, Option,
  none, some, Result, ok, err, OnSuccess-ok, length-append, length, get_elem?, All, arith,
  Bool-cases, inl, inr, ◌&&◌,
}
use nestova.Clock.{Time}
use nestova.Cadence.{
  Freq, daily, weekly, monthly, as_needed, step_from_anchor, occurrences_between, validate,
  is_empty,
}
use nestova.Cadence.Least.{IsPlain}
use nestova.Tasks.Schema.{Store, TaskInstance, Error, duplicate_instance, InstanceStatus}
use nestova.Tasks.Instances.{insert, inserted, insert_rule, date_of}
use nestova.Generator.{
  GeneratedTask, GeneratorError, insert_failed, assignee_for, instance_for, after_insert,
  insert_all, materialise_window, materialise_task, window_start, Materialised, is_claimable,
}
use nestova.Generator.Ordinals.{ordinal_lem}

-- The pending instance of the nth occurrence, for the member whose turn it is.
abbrev IsTurn : GeneratedTask → List ℕ → TaskInstance → Type 0
IsTurn task pool i =
    (n : ℕ) × (i.due_on ≡ some (date_of (step_from_anchor task.cadence n)))
    × (i.assignee ≡ assignee_for task.rotation_policy pool n)
    × (i.recurring_task ≡ task.id)
    × (i.status ≡ InstanceStatus.pending)

-- New rows in front of the old ones, as many as are counted.
pub record Inserts (task : GeneratedTask) (pool : List ℕ) (s : Store) (before : ℕ)
    (m : Materialised) : Type 0 where
  pub new_rows : List TaskInstance
  pub in_front : m.0.0.instances ≡ new_rows ++ s.instances
  pub turns : All (IsTurn task pool) new_rows
  pub counted : m.0.1 ≡ before + length new_rows

nothing :
    (task : GeneratedTask) (pool : List ℕ) (s : Store) (before : ℕ) (e : Option GeneratorError)
    → Inserts task pool s before ((s, before), e)
nothing task pool s before e = record {
  new_rows = [];
  in_front = refl;
  turns = tt;
  counted = omega arith;
}

insert_cases :
    (now : Time) (i : TaskInstance) (s : Store)
    → (insert now i s ≡ ok (record s { instances = inserted now i ∷ s.instances }))
      ⊎ ((e : Error) × (insert now i s ≡ err e))
insert_cases now i s = by_result (insert now i s) refl
  where
    by_result :
        (r : Result Error Store)
        → insert now i s ≡ r
        → (insert now i s ≡ ok (record s { instances = inserted now i ∷ s.instances }))
          ⊎ ((e : Error) × (insert now i s ≡ err e))
    by_result (err e) h = inr (e, h)
    by_result (ok s') h = inl (
        h
        ∙ ap ok (
            OnSuccess-ok (λ r. r ≡ record s { instances = inserted now i ∷ s.instances }) s' h
              (insert_rule _ now i s (λ _ _ _. refl))))

date_of_twice : (t : Time) → date_of (date_of t) ≡ date_of t
date_of_twice t = omega arith

-- A new row in front of the later ones.
one_insert :
    (task : GeneratedTask) (pool : List ℕ) (s : Store) (i : TaskInstance) (before : ℕ)
    (m : Materialised)
    → IsTurn task pool i
    → Inserts task pool (record s { instances = i ∷ s.instances }) (before + 1) m
    → Inserts task pool s before m
one_insert task pool s i before m turn rest = record {
  new_rows = rest.new_rows ++ (i ∷ []);
  in_front = rest.in_front ∙ append_assoc rest.new_rows i s.instances;
  turns = all_append rest.new_rows i rest.turns turn;
  counted = omega (arith, rest.counted, length-append rest.new_rows (i ∷ []));
}
  where
    append_assoc :
        (xs : List TaskInstance) (y : TaskInstance) (zs : List TaskInstance)
        → xs ++ (y ∷ zs) ≡ xs ++ (y ∷ []) ++ zs
    append_assoc [] y zs = refl
    append_assoc (x ∷ xs) y zs = ap (λ l. x ∷ l) (append_assoc xs y zs)

    all_append :
        (xs : List TaskInstance) (y : TaskInstance)
        → All (IsTurn task pool) xs
        → IsTurn task pool y
        → All (IsTurn task pool) (xs ++ (y ∷ []))
    all_append [] y a h = (h, tt)
    all_append (x ∷ xs) y (p, a) h = (p, all_append xs y a h)

-- A duplicate is skipped, and any other error stops the loop.
failed_insert :
    (task : GeneratedTask) (pool : List ℕ) (s : Store) (before : ℕ) (e : Error)
    (rest : Store → ℕ → Materialised)
    → Inserts task pool s before (rest s before)
    → Inserts task pool s before (after_insert (err e) s before rest)
failed_insert task pool s before duplicate_instance rest h = h
failed_insert task pool s before e rest h = nothing task pool s before (some (insert_failed e))

insert_all_lem :
    (now : Time) (new_id : ℕ → ℕ) (task : GeneratedTask) (pool : List ℕ) (ordinal : ℕ)
    (occs : List Time) (s : Store) (before : ℕ)
    → ((i : ℕ) (o : Time)
        → get_elem? occs i ≡ some o
        → o ≡ step_from_anchor task.cadence (ordinal + i))
    → Inserts task pool s before (insert_all now new_id task pool ordinal occs s before)
unfolding insert_all
insert_all_lem now new_id task pool ordinal [] s before places = nothing task pool s before none
insert_all_lem now new_id task pool ordinal (occ ∷ occs) s before places =
    let new = instance_for task pool (new_id ordinal) ordinal occ in
    let later : (i : ℕ) (o : Time)
        → get_elem? occs i ≡ some o
        → o ≡ step_from_anchor task.cadence (ordinal + 1 + i) =
      λ i o e.
        let shifted : ordinal + 1 + i ≡ ordinal + suc i = omega arith in
        rw shifted (places (suc i) o e) in
    let here : occ ≡ step_from_anchor task.cadence ordinal =
      let same : ordinal + 0 ≡ ordinal = omega arith in
      let first = places 0 occ refl in rw same at first in
    elim (insert_cases now new s) [
      | inl done ↦
          rw (insert_all, done)
            (one_insert task pool s (inserted now new) before _
              (ordinal, ap some (date_of_twice occ ∙ ap date_of here), refl, refl, refl)
              (insert_all_lem now new_id task pool (ordinal + 1) occs _ (before + 1) later))
      | inr (e, failed) ↦
          rw (insert_all, failed)
            (failed_insert task pool s before e _
              (insert_all_lem now new_id task pool (ordinal + 1) occs s before later))
    ]

window-Inserts :
    (now : Time) (new_id : ℕ → ℕ) (task : GeneratedTask) (members : List ℕ) (horizon : Time)
    (s : Store)
    → IsPlain task.cadence
    → 0 < task.cadence.anchor
    → Inserts task members s 0 (materialise_window now new_id task members horizon s)
unfolding materialise_window
window-Inserts now new_id task members horizon s plain positive =
    let start = window_start task s in
    let occurrences = occurrences_between task.cadence start horizon in
    let base = length (occurrences_between task.cadence (task.cadence.anchor - 1) start) in
    elim (Bool-cases (validate task.cadence)) [
      | inr p ↦ rw p (nothing task members s 0 _)
      | inl p ↦ elim (Bool-cases (is_empty occurrences)) [
        | inl q ↦ rw (p, q) (nothing task members s 0 _)
        | inr q ↦ elim (Bool-cases (not (is_claimable task.rotation_policy) && is_empty members)) [
          | inl r ↦ rw (p, q, r) (nothing task members s 0 _)
          | inr r ↦
              rw (p, q, r)
                (insert_all_lem now new_id task members base occurrences s 0
                  λ i o e. ordinal_lem task.cadence start horizon i o plain positive e)
        ]
      ]
    ]

dated_run :
    (now : Time) (new_id : ℕ → ℕ) (task : GeneratedTask) (members : List ℕ) (horizon : Time)
    (s : Store) (f : Freq)
    → f ≢ as_needed
    → materialise_window now new_id task members horizon s ≡ elim f [
      | as_needed ↦ ((s, 0), none)
      | _ ↦ materialise_window now new_id task members horizon s
    ]
dated_run now new_id task members horizon s daily d = refl
dated_run now new_id task members horizon s weekly d = refl
dated_run now new_id task members horizon s monthly d = refl
dated_run now new_id task members horizon s as_needed d = absurd (d refl)

-- Every row that a run for one task inserts is pending, due on the day of one of the task's
-- occurrences, and assigned by the rotation policy from the place of that occurrence among all
-- occurrences, so two runs over different windows agree; the run changes no older row and counts
-- the new ones. The cadence is daily, weekly or monthly with a positive interval and no weekdays,
-- and its anchor is not the zero time.
pub materialise_task-Inserts :
    (now : Time) (new_id : ℕ → ℕ) (task : GeneratedTask) (members : List ℕ) (horizon : Time)
    (s : Store)
    → IsPlain task.cadence
    → 0 < task.cadence.anchor
    → Inserts task members s 0 (materialise_task now new_id task members horizon s)
unfolding materialise_task
materialise_task-Inserts now new_id task members horizon s plain positive =
    subst (Inserts task members s 0)
      (dated_run now new_id task members horizon s task.cadence.freq plain.dated)
      (window-Inserts now new_id task members horizon s plain positive)
