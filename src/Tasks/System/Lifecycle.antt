-- ===== src/Tasks/System/Lifecycle.antt =====
-- The lifecycle of the instances over a history.
use nestova.Base.{List, [], ◌∷◌}
use nestova.Tasks.Schema.{Store}
use nestova.Tasks.System.Writes.{step-⟶}
use nestova.Tasks.Lifecycle.{⟶-Advances, Advances, Advances-refl, Advances-trans}
use nestova.Tasks.System.{Operation, step, run}

-- One operation.
step-Advances : (op : Operation) (s : Store) → Advances s.instances (step op s).instances
step-Advances op s = ⟶-Advances (step-⟶ op s)

-- Every history of the operations keeps every instance, with its task, household, due date and
-- kind, moves its status along pending, overdue, done or skipped, and changes nothing of one that
-- is done or skipped.
pub run-Advances : (ops : List Operation) (s : Store) → Advances s.instances (run ops s).instances
unfolding run
run-Advances [] s = Advances-refl s.instances
run-Advances (op ∷ ops) s =
    Advances-trans s.instances (step op s).instances _ (step-Advances op s)
      (run-Advances ops (step op s))
