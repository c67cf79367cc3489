-- ===== src/Notify/Dispatcher/Poll.antt =====
-- What a poll leaves of the notifications that it claims: internal/notify/app/dispatcher.go
-- (RunOnce).
use nestova.Base.{
  ℕ, ◌≤◌, ◌≡◌, refl, true, false, List, [], ◌∷◌, ◌++◌, some, ◌==◌, any, count, All, All-map, arith,
  test_of_eq, any-count, count-append,
}
use nestova.Clock.{Time}
use nestova.Notify.Schema.{Notification}
use nestova.Notify.Outbox.{is_id, claim_due}
use nestova.Notify.Dispatcher.{Dispatcher, DispatchState, deliver, deliver_all, run_once}
use nestova.Notify.Dispatcher.Steps.{claims}
use nestova.Notify.Dispatcher.AtMostOnce.{IsAtMostOnce, Step-IsAtMostOnce}
use nestova.Notify.Dispatcher.Outcome.{row_of}
use nestova.Notify.Dispatcher.Deliveries.{HasOutcome, own-deliver, other-deliver, any-deliver}

abbrev ArePresent : List Notification → List Notification → Type 0
ArePresent batch rows = All (λ n. any (is_id n.id) rows ≡ true) batch

deliver-ArePresent :
    (d : Dispatcher) (now : Time) (n : Notification) (s : DispatchState) (batch : List Notification)
    → any (is_id n.id) s.outbox ≡ true
    → ArePresent batch s.outbox
    → ArePresent batch (deliver d now n s).outbox
deliver-ArePresent d now n s batch here = All-map _ _ batch (λ m. any-deliver d now n s m.id here)

rest_kept :
    (d : Dispatcher) (now : Time) (batch : List Notification) (s : DispatchState) (i : ℕ)
    {row : Notification}
    → ArePresent batch s.outbox
    → All (λ m. (m.id == i) ≡ false) batch
    → row_of i s.outbox ≡ some row
    → row_of i (deliver_all d now batch s).outbox ≡ some row
unfolding deliver_all
rest_kept d now [] s i present apart h = h
rest_kept d now (n ∷ batch) s i (here, present) (other, apart) h =
    rest_kept d now batch (deliver d now n s) i (deliver-ArePresent d now n s batch here present)
      apart (other-deliver d now n s i here other h)

abbrev AreApart : List Notification → Type 0
AreApart [] = Unit
AreApart (n ∷ batch) = All (λ m. (m.id == n.id) ≡ false) batch × AreApart batch

deliver_all-HasOutcome :
    (d : Dispatcher) (now : Time) (batch : List Notification) (s : DispatchState)
    → ArePresent batch s.outbox
    → AreApart batch
    → All (HasOutcome d now (deliver_all d now batch s).outbox) batch
unfolding deliver_all
deliver_all-HasOutcome d now [] s present apart = tt
deliver_all-HasOutcome d now (n ∷ batch) s (here, present) (others, apart) =
    let left = deliver-ArePresent d now n s batch here present in
    let (row, found, outcome) = own-deliver d now n s here in
    (
      (row, rest_kept d now batch (deliver d now n s) n.id left others found, outcome),
      deliver_all-HasOutcome d now batch (deliver d now n s) left apart,
    )

none_same :
    (i : ℕ) (batch : List Notification)
    → count (is_id i) batch ≡ 0
    → All (λ m. (m.id == i) ≡ false) batch
unfolding count
none_same i [] h = tt
none_same i (n ∷ batch) h = (ground (arith, h), none_same i batch (ground (arith, h)))

counted_apart : (batch : List Notification) → ((i : ℕ) → count (is_id i) batch ≤ 1) → AreApart batch
unfolding count
counted_apart [] once = tt
counted_apart (n ∷ batch) once = (
  none_same n.id batch (ground (arith, once n.id, test_of_eq n.id)),
  counted_apart batch (λ i. ground (arith, once i)),
)

counted_present :
    (batch rows : List Notification)
    → ((i : ℕ) → count (is_id i) batch ≤ count (is_id i) rows)
    → ArePresent batch rows
unfolding count
counted_present [] rows h = tt
counted_present (n ∷ batch) rows h = (
  any-count (is_id n.id) rows (ground (arith, h n.id, test_of_eq n.id)),
  counted_present batch rows (λ i. ground (arith, h i)),
)

-- A poll records what became of each notification that it claims: at its end the row of one that
-- its sender delivered is sent, at the time of the poll, and the row of any other is failed. No
-- identifier is handed over, claimed or pending more than once at the start.
pub run_once-HasOutcome :
    (d : Dispatcher) (now : Time) (s : DispatchState)
    → IsAtMostOnce (s, [])
    → All (HasOutcome d now (run_once d now s).0.outbox) (claim_due now d.batch_size s.outbox).0
unfolding run_once
run_once-HasOutcome d now s once =
    let batch = (claim_due now d.batch_size s.outbox).0 in
    let rows = (claim_due now d.batch_size s.outbox).1 in
    let claimed : IsAtMostOnce (record s { outbox = rows }, batch ++ []) =
      Step-IsAtMostOnce d (s, []) (record s { outbox = rows }, batch ++ [])
        (claims now d.batch_size refl) once in
    let counted : (i : ℕ) → count (is_id i) batch ≤ count (is_id i) rows =
      λ i. omega (arith, (claimed i).0, count-append (is_id i) batch []) in
    deliver_all-HasOutcome d now batch (record s { outbox = rows })
      (counted_present batch rows counted)
      (counted_apart batch (λ i. omega (arith, counted i, (claimed i).1)))
