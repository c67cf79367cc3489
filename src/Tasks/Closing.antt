-- ===== src/Tasks/Closing.antt =====
-- Completing and skipping task instances: internal/tasks/adapter/postgres.go (Complete,
-- CompleteAndAward, CompleteAndAwardAsAssignee, Skip, SkipAsAssignee). A claim that has lapsed is
-- penalised first, and a standing instance is replaced by a new one in the same transaction.
pub mod Soundness
use nestova.Base.{
  ◌≡◌, refl, OnSuccess, ℕ, Bool, true, false, ◌&&◌, Option, none, some, if◌then◌else◌, is_key, find,
  update, Result, err,
}
use nestova.Clock.{Time}
use nestova.Tasks.Schema.{
  Store, TaskInstance, InstanceStatus, done, skipped, Error, instance_not_found,
  instance_in_terminal_state, assignee_changed,
}
use nestova.Tasks.Ledger.{award}
use nestova.Tasks.Instances.{is_row, is_open_row, respawn_if_standing}
use nestova.Tasks.Claims.{penalize_lapsed_claim}

abbrev unclaimed : TaskInstance → TaskInstance
unclaimed i = record i {
  claimed_by = none;
  claimed_at = none;
  claim_expires_at = none;
  claim_warned_at = none;
}

unfoldable pub completed : Time → ℕ → Time → TaskInstance → TaskInstance
completed now by at i = record (unclaimed i) {
  status = done;
  completed_by = some by;
  completed_at = some at;
  updated_at = now;
}

unfoldable pub skipped_row : Time → TaskInstance → TaskInstance
skipped_row now i = record (unclaimed i) { status = skipped; updated_at = now }

abbrev disambiguate_terminal : Option TaskInstance → Error
disambiguate_terminal none = instance_not_found
disambiguate_terminal (some i) = instance_in_terminal_state

abbrev pub is_terminal : InstanceStatus → Bool
is_terminal done = true
is_terminal skipped = true
is_terminal _ = false

abbrev disambiguate_guarded : Option TaskInstance → Error
disambiguate_guarded none = instance_not_found
disambiguate_guarded (some i) =
    if is_terminal i.status then instance_in_terminal_state else assignee_changed

abbrev disambiguate_zero_rows : Bool → Option TaskInstance → Error
disambiguate_zero_rows true row = disambiguate_guarded row
disambiguate_zero_rows false row = disambiguate_terminal row

-- The optional predicate `AND assignee_id = $3`.
abbrev is_assigned_to : Option ℕ → TaskInstance → Bool
is_assigned_to none i = true
is_assigned_to (some member) i = is_key i.assignee member

abbrev pub can_close : ℕ → ℕ → Option ℕ → TaskInstance → Bool
can_close household id assignee i = is_open_row household id i && is_assigned_to assignee i

-- What happens to the row in the two terminal transitions.
abbrev returning :
    Option TaskInstance → Error → (TaskInstance → Result Error Store) → Result Error Store
returning none e f = err e
returning (some i) e f = f i

-- Complete, and CompleteAndAward with and without a required assignee.
unfoldable pub complete : Time → ℕ → ℕ → ℕ → ℕ → ℕ → Time → Store → Result Error Store
complete now entry_id instance_id household id by at s0 =
    let s = penalize_lapsed_claim now entry_id household id at s0 in
    returning (find (is_open_row household id) s.instances)
      (disambiguate_terminal (find (is_row household id) s.instances))
      λ i. respawn_if_standing now instance_id i.kind i.recurring_task household (record s {
        instances = update (is_open_row household id) (completed now by at) s.instances;
      })

abbrev pub required : Bool → ℕ → Option ℕ
required true by = some by
required false by = none

unfoldable pub complete_and_award :
    Time → ℕ → ℕ → ℕ → ℕ → ℕ → ℕ → Time → Bool → Store → Result Error Store
complete_and_award now entry_id award_id instance_id household id by at require_assignee s0 =
    let s = penalize_lapsed_claim now entry_id household id at s0 in
    let hit = can_close household id (required require_assignee by) in
    returning (find hit s.instances)
      (disambiguate_zero_rows require_assignee (find (is_row household id) s.instances))
      λ i. respawn_if_standing now instance_id i.kind i.recurring_task household (record s {
        instances = update hit (completed now by at) s.instances;
        ledger = award now award_id household by id i.recurring_task s.tasks s.ledger;
      })

abbrev is_some {ℓ} : {A : Type ℓ} → Option A → Bool
is_some none = false
is_some (some a) = true

-- Skip and SkipAsAssignee. `wall` is the process's clock, `now` the database's.
unfoldable pub skip : Time → Time → ℕ → ℕ → ℕ → ℕ → Option ℕ → Store → Result Error Store
skip wall now entry_id instance_id household id assignee s0 =
    let s = penalize_lapsed_claim now entry_id household id wall s0 in
    let hit = can_close household id assignee in
    returning (find hit s.instances)
      (disambiguate_zero_rows (is_some assignee) (find (is_row household id) s.instances))
      λ i.
        respawn_if_standing now instance_id i.kind i.recurring_task household
          (record s { instances = update hit (skipped_row now) s.instances })

pub returning-OnSuccess :
    (P : Store → Type 0) (o : Option TaskInstance) (e : Error)
    (f : TaskInstance → Result Error Store)
    → ((i : TaskInstance) → o ≡ some i → OnSuccess P (f i))
    → OnSuccess P (returning o e f)
returning-OnSuccess P none e f h = tt
returning-OnSuccess P (some i) e f h = h i refl
