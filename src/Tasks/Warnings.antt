-- ===== src/Tasks/Warnings.antt =====
-- The one warning before a claim expires: internal/tasks/adapter/postgres.go (ClaimWarnings,
-- ClearClaimWarning). Titles are left out.
pub mod Once
use nestova.Base.{
  ℕ, ◌+◌, ◌*◌, Bool, true, false, not, ◌&&◌, List, map, Option, none, some, leb, ltb, ◌==◌, is_none,
  is_key, select, update,
}
use nestova.Clock.{Time, hour}
use nestova.Tasks.Schema.{Store, TaskInstance, is_open}

abbrev pub claim_warning_window : Time
claim_warning_window = 2 * hour

-- `claim_expires_at > $1 AND claim_expires_at <= $1 + …`, false at NULL.
abbrev pub expires_soon : Time → Option Time → Bool
expires_soon as_of none = false
expires_soon as_of (some at) = ltb as_of at && leb at (as_of + claim_warning_window)

abbrev pub is_warning_candidate : Time → TaskInstance → Bool
is_warning_candidate as_of i =
    expires_soon as_of i.claim_expires_at
    && is_none i.claim_warned_at
    && is_open i.status
    && not (is_none i.claimed_by)

pub record ClaimWarning : Type 0 where
  pub instance_id : ℕ
  pub household : ℕ
  pub claimed_by : Option ℕ
  pub expires_at : Option Time

abbrev pub warning_of : TaskInstance → ClaimWarning
warning_of i = record {
  instance_id = i.id;
  household = i.household;
  claimed_by = i.claimed_by;
  expires_at = i.claim_expires_at;
}

abbrev pub warned : Time → TaskInstance → TaskInstance
warned now i = record i { claim_warned_at = some now }

-- The rows are marked in the statement that returns them.
unfoldable pub claim_warnings : Time → Time → Store → Store × List ClaimWarning
claim_warnings now as_of s = (
  record s { instances = update (is_warning_candidate as_of) (warned now) s.instances },
  map warning_of (select (is_warning_candidate as_of) s.instances),
)

abbrev pub is_claim_until : ℕ → Time → TaskInstance → Bool
is_claim_until id expires_at i = i.id == id && is_key i.claim_expires_at expires_at

unfoldable pub clear_claim_warning : ℕ → Time → Store → Store
clear_claim_warning id expires_at s = record s {
  instances =
      update (is_claim_until id expires_at) (λ i. record i { claim_warned_at = none }) s.instances;
}
