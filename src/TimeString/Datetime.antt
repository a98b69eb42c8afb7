-- ===== src/TimeString/Datetime.antt =====
-- The whole of `datetime_string_increment` against a calendar with seconds.
use mysql_seed.Prelude.{ℕ, ◌+◌, ◌≤◌, ◌<◌, ◌≡◌, List, ltb, if◌then◌else◌}
use mysql_seed.Time.Leap.{gregorian}
use mysql_seed.TimeString.{datetime_string_increment}
use mysql_seed.TimeString.Clock.{clock, datetime_string_increment-clock}
use mysql_seed.TimeString.Calendar.{
  OnCalendar, date_text, next_date, next_day, increment_date-calendar,
}

-- the string "YYYY-MM-DD HH:MM:SS" of a second of a day, back to front
abbrev pub datetime_text : ℕ → ℕ → ℕ → ℕ → List ℕ
datetime_text y m d t = clock t b' ' (date_text y m d)

-- For every second of a day of the Gregorian calendar up to the year 9999 (leap years by
-- `gregorian`, months by `month_days`) that is on no day of the two irregular kinds (`OnCalendar`),
-- `datetime_string_increment` turns the string of that second into the string of the next one;
-- after the last second of 9999 comes 1000-01-01.
pub datetime_string_increment-next :
    (y m d t : ℕ)
    → y ≤ 9999
    → OnCalendar (gregorian y) m d
    → t < 86400
    → datetime_string_increment (datetime_text y m d t) ≡ (
        if ltb t 86399
        then datetime_text y m d (t + 1)
        else clock 0 b' ' (next_date y (next_day (gregorian y) m d)))
datetime_string_increment-next y m d t hy r h =
    rw (← increment_date-calendar y m d hy r)
      (datetime_string_increment-clock t b' ' (date_text y m d) h)
