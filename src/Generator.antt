-- ===== src/Generator.antt =====
-- Materialising the instances of recurring tasks ahead of time: internal/tasks/app/generator.go. A
-- task is read from the database with its rotation members; new identifiers are arguments.
pub mod Ordinals
pub mod Assignment
mod Examples
use nestova.Base.{
  ℕ, ◌+◌, ◌-◌, ◌%◌, Bool, true, false, not, ◌&&◌, List, [], ◌∷◌, Option, none, some, Result, ok,
  err, length, get_elem?, if◌then◌else◌, ◌==◌, max,
}
use nestova.Clock.{Time}
use nestova.Cadence.{Cadence, as_needed, validate, occurrences_between, is_empty}
use nestova.Tasks.Schema.{Store, TaskInstance, scheduled, Error, duplicate_instance}
use nestova.Tasks.Instances.{insert, new_instance, date_of}

pub data RotationPolicy : Type 0 where
  fixed round_robin claimable : RotationPolicy

-- What the generator reads of a recurring task.
pub record GeneratedTask : Type 0 where
  pub id : ℕ
  pub household : ℕ
  pub cadence : Cadence
  pub rotation_policy : RotationPolicy

pub data GeneratorError : Type 0 where
  invalid_cadence no_rotation_members : GeneratorError
  insert_failed : Error → GeneratorError

-- An index out of range, which panics, is none; a pool is not empty where it is read.
unfoldable pub assignee_for : RotationPolicy → List ℕ → ℕ → Option ℕ
assignee_for fixed pool ordinal = get_elem? pool 0
assignee_for round_robin pool ordinal = get_elem? pool (ordinal % length pool)
assignee_for claimable pool ordinal = none

abbrev pub is_claimable : RotationPolicy → Bool
is_claimable claimable = true
is_claimable _ = false

-- `max(due_on)` over the task's rows, none when there is no date.
abbrev later_of : Option Time → Option Time → Option Time
later_of none b = b
later_of (some a) none = some a
later_of (some a) (some b) = some (max a b)

unfoldable pub latest_due_on : ℕ → ℕ → List TaskInstance → Option Time
latest_due_on household task [] = none
latest_due_on household task (i ∷ is) =
    let rest = latest_due_on household task is in
    if i.household == household && i.recurring_task == task then later_of i.due_on rest else rest

abbrev pub window_start : GeneratedTask → Store → Time
window_start task s = elim (latest_due_on task.household task.id s.instances) [
  | some latest ↦ latest
  | none ↦ task.cadence.anchor - 1
]

-- The instance of one occurrence.
abbrev pub instance_for : GeneratedTask → List ℕ → ℕ → ℕ → Time → TaskInstance
instance_for task pool id ordinal occ =
    new_instance id task.id task.household (assignee_for task.rotation_policy pool ordinal)
      (some (date_of occ)) scheduled

-- The store, the number of rows inserted, and the error that stopped the loop.
abbrev pub Materialised : Type 0
Materialised = (Store × ℕ) × Option GeneratorError

-- The loop's body after the insert: a duplicate is skipped, another error stops.
abbrev pub after_insert : Result Error Store → Store → ℕ → (Store → ℕ → Materialised) → Materialised
after_insert (ok s') s inserted rest = rest s' (inserted + 1)
after_insert (err duplicate_instance) s inserted rest = rest s inserted
after_insert (err e) s inserted rest = ((s, inserted), some (insert_failed e))

unfoldable pub insert_all :
    Time → (ℕ → ℕ) → GeneratedTask → List ℕ → ℕ → List Time → Store → ℕ → Materialised
insert_all now new_id task pool ordinal [] s inserted = ((s, inserted), none)
insert_all now new_id task pool ordinal (occ ∷ occs) s inserted =
    after_insert (insert now (instance_for task pool (new_id ordinal) ordinal occ) s) s inserted
      (insert_all now new_id task pool (ordinal + 1) occs)

-- The window of a task that has dated occurrences.
unfoldable pub materialise_window :
    Time → (ℕ → ℕ) → GeneratedTask → List ℕ → Time → Store → Materialised
materialise_window now new_id task members horizon s =
    let start = window_start task s in
    let occurrences = occurrences_between task.cadence start horizon in
    let base = length (occurrences_between task.cadence (task.cadence.anchor - 1) start) in
    if not (validate task.cadence)
    then ((s, 0), some invalid_cadence)
    else (if is_empty occurrences
        then ((s, 0), none)
        else (if not (is_claimable task.rotation_policy) && is_empty members
            then ((s, 0), some no_rotation_members)
            else insert_all now new_id task members base occurrences s 0))

unfoldable pub materialise_task :
    Time → (ℕ → ℕ) → GeneratedTask → List ℕ → Time → Store → Materialised
materialise_task now new_id task members horizon s = elim task.cadence.freq [
  | as_needed ↦ ((s, 0), none)
  | _ ↦ materialise_window now new_id task members horizon s
]

abbrev first_error : Option GeneratorError → Option GeneratorError → Option GeneratorError
first_error none later = later
first_error (some e) later = some e

-- The identifiers of new rows and the rotation members are those of each task.
unfoldable pub generate_all :
    Time → (ℕ → ℕ → ℕ) → List GeneratedTask → (ℕ → List ℕ) → Time → Store → Materialised
generate_all now new_id [] members horizon s = ((s, 0), none)
generate_all now new_id (task ∷ tasks) members horizon s =
    let ((s', inserted), failed) =
      materialise_task now (new_id task.id) task (members task.id) horizon s in
    let ((s2, total), later) = generate_all now new_id tasks members horizon s' in
    ((s2, inserted + total), first_error failed later)

-- All active tasks, which a query lists, up to the horizon's date.
unfoldable pub generate_due :
    Time → (ℕ → ℕ → ℕ) → List GeneratedTask → (ℕ → List ℕ) → Time → Time → Store → Materialised
generate_due now new_id tasks members horizon as_of s =
    generate_all now new_id tasks members (date_of (as_of + horizon)) s
