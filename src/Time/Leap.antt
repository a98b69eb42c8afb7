-- ===== src/Time/Leap.antt =====
-- The leap years of the Gregorian calendar, and is_leap_year of time/time_utils.h.
use mysql_seed.Prelude.{ℕ, ◌%◌, ◌≡◌, Bool, not, ◌&&◌, ◌||◌, arith, ◌==◌}
use mysql_seed.Time.{is_leap_year}

-- the rule of the calendar: every fourth year, but of the full centuries every fourth only
unfoldable pub gregorian : ℕ → Bool
gregorian y = ((y % 4 == 0) && not (y % 100 == 0)) || (y % 400 == 0)

pub is_leap_year-gregorian : (y : ℕ) → is_leap_year y ≡ gregorian y
unfolding is_leap_year gregorian
is_leap_year-gregorian y = ground arith
