-- ===== src/Notify/Outbox/Claiming.antt =====
-- What a claim of the outbox takes: internal/notify/adapter/postgres.go (ClaimDue).
use nestova.Base.{
  ℕ, zero, suc, ◌+◌, ◌≤◌, ◌<◌, ◌≡◌, ◌⊎◌, refl, Bool, true, not, ◌&&◌, List, [], ◌∷◌, leb, ◌==◌, any,
  count, select, Bool-cases, arith, inl, inr, test_of_eq, count-le, count-select, count-map,
  any-count, count-any, count-split, count-updated,
}
use nestova.Clock.{Time}
use nestova.Notify.Schema.{Notification, sent, is_pending_status}
use nestova.Notify.Outbox.{
  is_due, insert_by_schedule, order_by_schedule, take, is_among, marked, due_batch, claim_due,
}

abbrev pub is_pending_row : Notification → Bool
is_pending_row n = is_pending_status n.status

count-insert :
    (p : Notification → Bool) (n : Notification) (rows : List Notification)
    → count p (insert_by_schedule n rows) ≡ count p (n ∷ rows)
unfolding count insert_by_schedule
count-insert p n [] = refl
count-insert p n (m ∷ rows) =
    ground (arith, Bool-cases (p n), Bool-cases (p m), count-insert p n rows)

count-order :
    (p : Notification → Bool) (rows : List Notification)
    → count p (order_by_schedule rows) ≡ count p rows
unfolding count order_by_schedule
count-order p [] = refl
count-order p (n ∷ rows) =
    ground (arith, count-insert p n (order_by_schedule rows), count-order p rows, Bool-cases (p n))

count-take :
    (p : Notification → Bool) (k : ℕ) (rows : List Notification)
    → count p (take k rows) ≤ count p rows
unfolding count
count-take p zero rows = omega arith
count-take p (suc k) [] = omega arith
count-take p (suc k) (n ∷ rows) = ground (arith, Bool-cases (p n), count-take p k rows)

-- The claimed rows with a test are among the due ones with it.
pub count-due_batch :
    (p : Notification → Bool) (now : Time) (limit : ℕ) (rows : List Notification)
    → count p (due_batch now limit rows) ≤ count (λ n. is_due now n && p n) rows
unfolding due_batch
count-due_batch p now limit rows =
    let picked = select (is_due now) rows in
    omega (
      arith,
      count-take p limit (order_by_schedule picked),
      count-order p picked,
      count-select p (is_due now) rows,
    )

-- Each claimed row is among the claimed ones.
count-among :
    (p : Notification → Bool) (all batch : List Notification)
    → ((c : Notification) → is_among batch c ≡ true → is_among all c ≡ true)
    → count p batch ≡ count (λ n. is_among all n && p n) batch
unfolding count any
count-among p all [] h = refl
count-among p all (c ∷ batch) h =
    let here : is_among all c ≡ true = h c (rw (test_of_eq c.id) refl) in
    let rest = count-among p all batch λ d e. h d (ground (arith, e, Bool-cases (c.id == d.id))) in
    rw (here, rest) refl

-- After a claim no row that was claimed is pending: the pending rows with a test, and the claimed
-- ones, are no more than the pending rows were.
pub count-claim_due :
    (p : Notification → Bool) (now : Time) (limit : ℕ) (rows : List Notification)
    → ((n : Notification) → p (marked sent n) ≡ p n)
    → count (λ n. is_pending_row n && p n) (claim_due now limit rows).1
        + count p (claim_due now limit rows).0
      ≤ count (λ n. is_pending_row n && p n) rows
unfolding claim_due
count-claim_due p now limit rows same =
    let batch = due_batch now limit rows in
    let q : Notification → Bool = λ n. is_pending_row n && p n in
    let taken = count-due_batch (λ n. is_among batch n && p n) now limit rows in
    let left =
      count-updated q (is_among batch) (λ n. not (is_among batch n) && q n) (marked sent) rows
        (λ n e f. absurd (ground arith)) (λ n e f. rw e f) in
    omega (
      arith,
      taken,
      left,
      count-split q (is_among batch) rows,
      count-le (λ n. is_due now n && (is_among batch n && p n)) (λ n. is_among batch n && q n) rows
          (λ n e. ground (arith, e)),
      count-among p batch batch (λ c e. e),
      count-map p (marked sent) batch same,
    )

-- Scheduled no later than `t`.
abbrev pub is_by : Time → Notification → Bool
is_by t n = leb n.scheduled_for t

-- The first row is the one with the earliest schedule.
starts-insert :
    (t : Time) (n : Notification) (rows : List Notification)
    → any (is_by t) (take 1 rows) ≡ true ⊎ is_by t n ≡ true
    → any (is_by t) (take 1 (insert_by_schedule n rows)) ≡ true
unfolding any insert_by_schedule
starts-insert t n [] h = ground (arith, h)
starts-insert t n (m ∷ rows) h = ground (arith, h)

starts-order :
    (t : Time) (rows : List Notification)
    → any (is_by t) rows ≡ true
    → any (is_by t) (take 1 (order_by_schedule rows)) ≡ true
unfolding any order_by_schedule
starts-order t [] h = cc
starts-order t (n ∷ rows) h = elim (Bool-cases (is_by t n)) [
  | inl e ↦ starts-insert t n (order_by_schedule rows) (inr e)
  | inr e ↦ starts-insert t n (order_by_schedule rows) (inl (starts-order t rows (ground arith)))
]

any-take :
    (p : Notification → Bool) (k : ℕ) (rows : List Notification)
    → any p (take 1 rows) ≡ true
    → any p (take (suc k) rows) ≡ true
unfolding any
any-take p k [] h = h
any-take p k (n ∷ rows) h = ground (arith, h)

any-select :
    (p q : Notification → Bool) (rows : List Notification)
    → 0 < count (λ n. q n && p n) rows
    → any p (select q rows) ≡ true
any-select p q rows h = any-count p (select q rows) (omega (arith, count-select p q rows, h))

-- A claim at `now` takes a row that was due at an earlier time, when there is one.
pub due_batch-oldest :
    (t now : Time) (limit : ℕ) (rows : List Notification)
    → t ≤ now
    → 0 < limit
    → 0 < count (is_due t) rows
    → 0 < count (is_by t) (claim_due now limit rows).0
unfolding due_batch claim_due
due_batch-oldest t now zero rows h l e = absurd (omega arith)
due_batch-oldest t now (suc k) rows h l e =
    let picked = select (is_due now) rows in
    let some_due = any-select (is_by t) (is_due now) rows (
      omega (
        arith,
        e,
        count-le (is_due t) (λ n. is_due now n && is_by t n) rows (λ n d. ground (arith, d)),
      )) in
    let first = any-take (is_by t) k (order_by_schedule picked) (starts-order t picked some_due) in
    omega (
      arith,
      count-any (is_by t) (take (suc k) (order_by_schedule picked)) first,
      count-map (is_by t) (marked sent) (take (suc k) (order_by_schedule picked)) (λ n. refl),
    )
