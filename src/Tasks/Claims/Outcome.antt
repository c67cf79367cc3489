-- ===== src/Tasks/Claims/Outcome.antt =====
-- What a claim answers, and what it leaves: Claim of internal/tasks/adapter/postgres.go.
use nestova.Base.{
  ℕ, ◌+◌, ◌≡◌, ◌⊎◌, none, true, false, ◌||◌, some, ◌==◌, if◌then◌else◌, is_key, is_none, find, ok,
  err,
}
use nestova.Tasks.Schema.{
  Store, TaskInstance, instance_already_claimed, instance_in_terminal_state, is_open, claim_window,
}
use nestova.Tasks.Instances.{is_row}
use nestova.Tasks.Claims.{claim}

-- Whom a claimed row is for and until when: a repeated claim keeps its times, and only a claim of
-- an instance that nobody had runs out.
pub record IsClaimedRow (now member : ℕ) (i j : TaskInstance) : Type 0 where
  pub assigned : j.assignee ≡ some member
  pub claimant : j.claimed_by ≡ some member
  pub same_instance :
      (j.id ≡ i.id) × (j.recurring_task ≡ i.recurring_task) × (j.household ≡ i.household)
  pub same_status : (j.status ≡ i.status) × (j.due_on ≡ i.due_on) × (j.kind ≡ i.kind)
  pub timed :
      ((is_key i.claimed_by member ≡ true)
        × (j.claimed_at ≡ i.claimed_at)
        × (j.claim_expires_at ≡ i.claim_expires_at))
      ⊎ ((is_key i.claimed_by member ≡ false)
          × (j.claimed_at ≡ some now)
          × (j.claim_expires_at ≡ (if is_none i.assignee then some (now + claim_window) else none)))

-- What a claim that succeeds leaves: the row is the member's, and no other row and no other table
-- changes.
pub record IsClaimed (now household id member : ℕ) (i : TaskInstance) (s s' : Store) : Type 0 where
  pub row : TaskInstance
  pub found : find (is_row household id) s'.instances ≡ some row
  pub is_claimed_row : IsClaimedRow now member i row
  pub others :
      (other : ℕ)
      → other == id ≡ false
      → find (λ x. x.id == other) s'.instances ≡ find (λ x. x.id == other) s.instances
  pub rest : s' ≡ record s { instances = s'.instances }

-- The three answers to a claim of an instance of the household.
abbrev pub ClaimOutcome : ℕ → ℕ → ℕ → ℕ → Store → TaskInstance → Type 0
ClaimOutcome now household id member s i =
    ((is_open i.status ≡ false)
      × (claim now household id member s ≡ err instance_in_terminal_state))
    ⊎ (((is_open i.status ≡ true)
          × (is_none i.assignee || is_key i.assignee member ≡ false)
          × (claim now household id member s ≡ err instance_already_claimed))
        ⊎ ((is_open i.status ≡ true)
            × (is_none i.assignee || is_key i.assignee member ≡ true)
            × ((s' : Store) × (claim now household id member s ≡ ok s')
                × IsClaimed now household id member i s s')))
