-- ===== src/Tasks/System/Invariant.antt =====
-- What holds of the task and trade tables whatever happened before.
use nestova.Base.{List, [], ◌∷◌}
use nestova.Tasks.Schema.{Store}
use nestova.Tasks.Rows.{TableIsValid, ⟶-TableIsValid}
use nestova.Tasks.Trades.Reservations.{IsReserved, trading}
use nestova.Tasks.System.{Operation, step, run}
use nestova.Tasks.System.Writes.{step-⟶}
use nestova.Tasks.System.Trades.{step-Reserved}

-- Every history of the operations keeps the table of task instances valid: each row's completion,
-- claim and due date columns agree with its status and its kind, identifiers are unique, and a task
-- has at most one open standing instance.
pub run-TableIsValid :
    (ops : List Operation) (s : Store)
    → TableIsValid s.instances
    → TableIsValid (run ops s).instances
unfolding run
run-TableIsValid [] s v = v
run-TableIsValid (op ∷ ops) s v = run-TableIsValid ops (step op s) (⟶-TableIsValid (step-⟶ op s) v)

-- Every history of the operations keeps the reservations those of the proposed trades, two for each
-- of them and none for another, and no two proposed trades share an instance, in whatever roles, if
-- it is so at the start.
pub run-IsReserved :
    (ops : List Operation) (s : Store) → IsReserved (trading s) → IsReserved (trading (run ops s))
unfolding run
run-IsReserved [] s v = v
run-IsReserved (op ∷ ops) s v = run-IsReserved ops (step op s) (step-Reserved op s v)
