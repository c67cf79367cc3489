-- ===== src/Tasks/Claims/Sweep.antt =====
-- The sweep of expired claims, and a claim that is repeated.
use nestova.Base.{
  ℕ, ◌≡◌, false, [], arith, Bool-cases, any, any-update, update-none, select-none, is_key,
}
use nestova.Clock.{Time}
use nestova.Tasks.Schema.{Store, TaskInstance}
use nestova.Tasks.Claims.{
  is_expired, reverted, claims_of, sort_by_claimant, penalize_all, sweep_expired_claims, claimed,
}

-- No open instance is left with a claim that has run out.
pub sweep_clears :
    (now : Time) (new_id : ℕ → ℕ) (as_of : Time) (s : Store)
    → any (is_expired as_of) (sweep_expired_claims now new_id as_of s).0.instances ≡ false
unfolding sweep_expired_claims reverted
sweep_clears now new_id as_of s =
    any-update (is_expired as_of) (is_expired as_of) (reverted now) s.instances
      λ i. ground (arith, Bool-cases (is_expired as_of i))

-- Sweeping again for the same time finds nothing and changes nothing.
pub sweep_twice :
    (now later : Time) (new_id later_id : ℕ → ℕ) (as_of : Time) (s : Store)
    → let s' = (sweep_expired_claims now new_id as_of s).0 in
      sweep_expired_claims later later_id as_of s' ≡ (s', [])
unfolding sweep_expired_claims claims_of sort_by_claimant penalize_all
sweep_twice now later new_id later_id as_of s =
    let s' = (sweep_expired_claims now new_id as_of s).0 in
    let clear : any (is_expired as_of) s'.instances ≡ false = sweep_clears now new_id as_of s in
    swept s' clear
  where
    swept :
        (t : Store)
        → any (is_expired as_of) t.instances ≡ false
        → sweep_expired_claims later later_id as_of t ≡ (t, [])
    swept t clear = rw (
      select-none (is_expired as_of) t.instances clear,
      update-none (is_expired as_of) (reverted later) t.instances clear,
    )

-- A claim on an instance that the member has claimed already leaves its window and its warning.
claimed-claimed :
    (now later member : ℕ) (i : TaskInstance)
    → claimed later member (claimed now member i)
      ≡ record (claimed now member i) { updated_at = later }
unfolding claimed
claimed-claimed now later member i = ground (arith, Bool-cases (is_key i.claimed_by member))
