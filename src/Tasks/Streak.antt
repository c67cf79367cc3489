-- ===== src/Tasks/Streak.antt =====
-- The streak of days with a completed task: internal/tasks/domain/streak.go. Times are in UTC.
pub mod Longest
use nestova.Base.{ℕ, zero, suc, ◌+◌, Bool, true, false, List, [], ◌∷◌, ◌==◌, if◌then◌else◌, any}
use nestova.Clock.{Time, day_of}

-- Whether the set of days has a day.
unfoldable pub has_day : List Time → ℕ → Bool
has_day days day = any (λ t. day_of t == day) days

-- The loop from a day backwards. It ends before the calendar does, which no day precedes.
unfoldable pub count_back : List Time → ℕ → ℕ
count_back days zero = if has_day days zero then 1 else 0
count_back days (suc day) =
    let rest = count_back days day in if has_day days (suc day) then suc rest else 0

-- A streak goes on when nothing is done yet today.
abbrev pub from_yesterday : List Time → ℕ → ℕ
from_yesterday days zero = 0
from_yesterday days (suc yesterday) =
    if has_day days yesterday then count_back days yesterday else 0

unfoldable pub current_streak : List Time → Time → ℕ
current_streak [] today = 0
current_streak (t ∷ days) today =
    if has_day (t ∷ days) (day_of today)
    then count_back (t ∷ days) (day_of today)
    else from_yesterday (t ∷ days) (day_of today)
