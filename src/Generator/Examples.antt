-- ===== src/Generator/Examples.antt =====
-- A daily chore of two members in turn.
use nestova.Base.{◌+◌, ◌-◌, ◌*◌, ◌≡◌, refl, [], ◌∷◌, some, length, get_elem?, arith}
use nestova.Clock.{ns_per_day, hour}
use nestova.Cadence.{
  Cadence, daily, step_from_anchor, occurrences_between, occurrences_from, next_after,
  next_after_by_index, search_down, estimate_index,
}
use nestova.Calendar.{search_up}
use nestova.Cadence.Least.{IsPlain}
use nestova.Tasks.Schema.{Store}
use nestova.Base.{if◌then◌else◌, ◌==◌}
use nestova.Generator.{
  GeneratedTask, round_robin, no_rotation_members, generate_due, generate_all, materialise_task,
  materialise_window, latest_due_on, insert_all,
}
use nestova.Base.{any}
use nestova.Cadence.{validate}
use nestova.Tasks.Instances.{insert}
use nestova.Generator.Ordinals.{ordinal_lem}
use nestova.Generator.Assignment.{Inserts, materialise_task-Inserts}

-- Every day at 08:00, from the second day of year 1.
abbrev every_day : Cadence
every_day = record { freq = daily; interval = 1; by_weekday = []; anchor = 32 * hour }

every_day-IsPlain : IsPlain every_day
every_day-IsPlain = record {
  dated = λ e. absurd (ground (arith, e));
  positive = omega arith;
  no_weekdays = refl;
}

abbrev in_turn : GeneratedTask
in_turn = record { id = 1; household = 1; cadence = every_day; rotation_policy = round_robin }

abbrev empty_store : Store
empty_store = record {
  tasks = record { id = 1; household = 1; title = "dishes"; points = 1 } ∷ [];
  instances = [];
  ledger = [];
  rewards = [];
  redemptions = [];
  trades = [];
  reservations = [];
}

third :
    get_elem? (occurrences_between every_day (3 * ns_per_day) (5 * ns_per_day)) 1
    ≡ some (4 * ns_per_day + 8 * hour)
unfolding occurrences_between occurrences_from next_after next_after_by_index search_down
    estimate_index step_from_anchor search_up
third = refl

ordinal_lem_example :
    4 * ns_per_day + 8 * hour
    ≡ step_from_anchor every_day
        (length (occurrences_between every_day (every_day.anchor - 1) (3 * ns_per_day)) + 1)
ordinal_lem_example =
    ordinal_lem every_day (3 * ns_per_day) (5 * ns_per_day) 1 (4 * ns_per_day + 8 * hour)
      every_day-IsPlain (omega arith) third

materialise_task-Inserts_example :
    Inserts in_turn
      (7 ∷ 8 ∷ [])
      empty_store
      0
      (materialise_task 5 (λ n. 100 + n) in_turn (7 ∷ 8 ∷ []) (4 * ns_per_day) empty_store)
materialise_task-Inserts_example =
    materialise_task-Inserts 5 (λ n. 100 + n) in_turn (7 ∷ 8 ∷ []) (4 * ns_per_day) empty_store
      every_day-IsPlain (omega arith)

-- Two tasks, of which the second has nobody to take it in turn.
nobody_in_turn :
    (generate_due 5
      (λ task n. task * 100 + n)
      (in_turn ∷ record in_turn { id = 2 } ∷ [])
      (λ task. if task == 1 then 7 ∷ 8 ∷ [] else [])
      (2 * ns_per_day)
      (2 * ns_per_day)
      empty_store).1
    ≡ some no_rotation_members
unfolding generate_due generate_all materialise_task materialise_window validate any
    occurrences_between occurrences_from next_after next_after_by_index latest_due_on
    step_from_anchor insert_all insert search_up search_down estimate_index
nobody_in_turn = refl
