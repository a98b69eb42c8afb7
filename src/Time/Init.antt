-- ===== src/Time/Init.antt =====
-- The fields that `timestamp_init` of time/time_utils.h sets.
use mysql_seed.Prelude.{ℕ, ◌+◌, ◌/◌, ◌%◌, ◌≡◌, refl, if◌then◌else◌}
use mysql_seed.Time.{is_leap_year, timestamp_set_month_day, timestamp_init}
use mysql_seed.Time.Leap.{gregorian}

-- the seconds from the start of year 0, by the average length of a year
abbrev pub since_year_zero : ℕ → ℕ
since_year_zero time = time + 62167208832

-- the days since the start of the year, by the average length of a year
abbrev pub day_offset : ℕ → ℕ
day_offset time = since_year_zero time % 31556952 / 86400

-- the year by the average length, and its leap day by the calendar
abbrev pub year_of : ℕ → ℕ
year_of time = since_year_zero time / 31556952

abbrev pub leap_of : ℕ → ℕ
leap_of time = if gregorian (year_of time) then 1 else 0

-- Without the bound on the day offset: on the last day of 2001, a common year, it is 365, and the date
-- is December 32.
december_32 :
    let ts = timestamp_init 1009788120 in
    (ts.year ≡ 2001) × (ts.leap_year ≡ 0) × (ts.month ≡ 12) × (ts.day ≡ 32)
unfolding timestamp_init timestamp_set_month_day is_leap_year
december_32 = (refl, refl, refl, refl)
