-- ===== src/Time.antt =====
-- Time points and dates (store.common/src/time.hpp). A time point of the system clock is its number of
-- nanoseconds from the epoch, a signed integer of 64 bits: an overflow is undefined, which is `none`.
use store_cpp.Base.{
  ℕ, suc, ◌+◌, ◌*◌, ◌/◌, ◌<◌, ◌≤◌, ◌≡◌, refl, arith, Option, none, some, ltb, if◌then◌else◌,
}
use store_cpp.Base.Int.{ℤ, pos, negsuc, ◌≤ℤ◌, ◌+ℤ◌, ◌-ℤ◌, difference}

abbrev pub day : ℕ
day = 86_400_000_000_000

-- `duration_cast` to milliseconds drops the rest towards zero.
unfoldable pub get_milliseconds_from_time_point : ℤ → ℤ
get_milliseconds_from_time_point (pos n) = pos (n / 1_000_000)
get_milliseconds_from_time_point (negsuc n) = difference 0 (suc n / 1_000_000)

pub data Direction : Type 0 where
  forward backward : Direction

-- The result of an operation on signed integers of 64 bits.
unfoldable pub as_int64 : ℤ → Option ℤ
as_int64 (pos n) = if ltb n 9_223_372_036_854_775_808 then some (pos n) else none
as_int64 (negsuc n) = if ltb n 9_223_372_036_854_775_808 then some (negsuc n) else none

-- `days{numOfDays}` as nanoseconds, to which it is converted before it is added.
unfoldable pub days : ℤ → Option ℤ
unfolding as_int64
days (pos n) = as_int64 (pos (n * day))
days (negsuc n) = as_int64 (difference 0 (suc n * day))

-- `dt + dyz` or `dt - dyz`
unfoldable pub moved : ℤ → Direction → Option ℤ → Option ℤ
unfolding as_int64
moved dt direction none = none
moved dt forward (some dyz) = as_int64 (dt +ℤ dyz)
moved dt backward (some dyz) = as_int64 (dt -ℤ dyz)

unfoldable pub add_days_to_date : ℤ → ℤ → Direction → Option ℤ
unfolding moved days
add_days_to_date dt num_of_days direction = moved dt direction (days num_of_days)

-- `date::floor<days>`, as nanoseconds again where it is given to `addDaysToDate`
unfoldable pub floor_days : ℤ → Option ℤ
unfolding as_int64
floor_days (pos n) = as_int64 (pos (n / day * day))
floor_days (negsuc n) = as_int64 (difference 0 ((n / day + 1) * day))

unfoldable pub days_before : ℤ → Option ℤ → Option ℤ
unfolding add_days_to_date
days_before num_of_days none = none
days_before num_of_days (some today) = add_days_to_date today num_of_days backward

-- The time point that the clock gave is an argument.
unfoldable pub days_ago : ℤ → ℤ → Option ℤ
unfolding days_before floor_days
days_ago now num_of_days = days_before num_of_days (floor_days now)

unfoldable pub date_diff : ℤ → ℤ → ℤ
unfolding get_milliseconds_from_time_point
date_diff lhs rhs = get_milliseconds_from_time_point lhs -ℤ get_milliseconds_from_time_point rhs

-- From the epoch to the last time point of the clock, for up to 106751 days: `daysAgo(n)` is defined,
-- and is at least `n` days before the current time and less than `n + 1` days.
pub days_ago-bounds :
    (now n : ℕ)
    → now < 9_223_372_036_854_775_808
    → n ≤ 106_751
    → (t : ℤ) × (days_ago (pos now) (pos n) ≡ some t)
      × ((t +ℤ pos (n * day)) ≤ℤ pos now)
      × (¬ ((t +ℤ pos ((n + 1) * day)) ≤ℤ pos now))
unfolding days_ago floor_days days_before add_days_to_date moved days as_int64
days_ago-bounds now n h k =
    (pos (now / day * day) -ℤ pos (n * day), ground arith, ground arith, ground arith)

days_before_overflow : (today : Option ℤ) (n : ℕ) → 106_751 < n → days_before (pos n) today ≡ none
unfolding days_before add_days_to_date moved days as_int64
days_before_overflow none n h = refl
days_before_overflow (some t) n h = ground arith

-- From 106752 days on, the number of nanoseconds has no 64 bits.
days_ago_overflow : (now : ℤ) (n : ℕ) → 106_751 < n → days_ago now (pos n) ≡ none
unfolding days_ago
days_ago_overflow now n h = days_before_overflow (floor_days now) n h
