-- ===== src/Tasks/Warnings/Once.antt =====
-- How often a claim is warned of: internal/tasks/adapter/postgres.go (ClaimWarnings).
use nestova.Base.{
  ◌≡◌, refl, ap, Bool, true, false, not, ◌&&◌, List, [], ◌∷◌, map, select, update, Bool-cases,
  arith, inl, inr,
}
use nestova.Clock.{Time}
use nestova.Tasks.Schema.{Store, TaskInstance}
use nestova.Tasks.Warnings.{expires_soon, is_warning_candidate, warning_of, warned, claim_warnings}

and_false : (b : Bool) → (b && false) ≡ false
and_false true = refl
and_false false = refl

warned_rows :
    (now as_of later : Time) (rows : List TaskInstance)
    → map warning_of (
        select (is_warning_candidate later) (update (is_warning_candidate as_of) (warned now) rows))
      ≡ map warning_of
          (select (λ i. is_warning_candidate later i && not (is_warning_candidate as_of i)) rows)
unfolding select update
warned_rows now as_of later [] = refl
warned_rows now as_of later (i ∷ rows) =
    let rest = warned_rows now as_of later rows in
    elim (Bool-cases (is_warning_candidate as_of i)) [
      | inl old ↦
          let gone : is_warning_candidate later (warned now i) ≡ false =
            ground (arith, Bool-cases (expires_soon later i.claim_expires_at)) in
          rw (old, gone, and_false (is_warning_candidate later i)) rest
      | inr new ↦ elim (Bool-cases (is_warning_candidate later i)) [
        | inl soon ↦ rw (new, soon) (ap (λ ws. warning_of i ∷ ws) rest)
        | inr other ↦ rw (new, other) rest
      ]
    ]

-- A claim is warned of once: a later run gives a warning for exactly the claims that are about to
-- expire by then and had none from the run before.
pub claim_warnings-once :
    (now as_of now' later : Time) (s : Store)
    → (claim_warnings now' later (claim_warnings now as_of s).0).1
      ≡ map warning_of (
          select
            (λ i. is_warning_candidate later i && not (is_warning_candidate as_of i))
            s.instances)
unfolding claim_warnings
claim_warnings-once now as_of now' later s = warned_rows now as_of later s.instances
