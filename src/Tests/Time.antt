-- ===== src/Tests/Time.antt =====
-- The theorems on dates at one time point.
use store_cpp.Base.{arith, ℕ, ◌≡◌, some, ◌*◌, ◌+◌}
use store_cpp.Base.Int.{ℤ, pos, ◌+ℤ◌, ◌≤ℤ◌}
use store_cpp.Time.{day, days_ago, days_ago-bounds}

-- Half a day after the start of the fourth day.
abbrev moment : ℕ
moment = 302_400_000_000_000

days_ago-bounds_example :
    (t : ℤ) × (days_ago (pos moment) (pos 2) ≡ some t)
    × ((t +ℤ pos (2 * day)) ≤ℤ pos moment)
    × (¬ ((t +ℤ pos ((2 + 1) * day)) ≤ℤ pos moment))
days_ago-bounds_example = days_ago-bounds moment 2 (omega arith) (omega arith)
