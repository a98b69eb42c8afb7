-- ===== src/TimeString/Timestamp.antt =====
-- timestamp_string_increment of time/time_string.h, and what it does: as a DATETIME string, but for
-- the last second that the type can hold.
use mysql_seed.Prelude.{
  ℕ, ◌+◌, ◌/◌, ◌%◌, ◌≤◌, ◌<◌, ◌≡◌, ◌∙◌, ◌≢◌, ◌⊎◌, not, none, List, [], arith, ltb, ◌==◌,
  if◌then◌else◌, eq→==, lt→ltb, ne→==, set, codes,
}
use native.Mathlib.Decide.{dec_lt, ℕ_discrete}
use mysql_seed.Cells.{at, set_string, next_digit, switch_text}
use mysql_seed.Cells.Switch.{switch_text-some, switch_text-none}
use mysql_seed.Cells.Digits.{next_digit-some, next_digit-none}
use mysql_seed.Time.Leap.{gregorian}
use mysql_seed.TimeString.{increment_minute, on_date, increment_date, increment_timestamp_year}
use mysql_seed.TimeString.Clock.{clock, same_clock, second_next}
use mysql_seed.TimeString.Calendar.{
  OnCalendar, date_text, next_date, next_day, date_next, month_days-le, same_year, follows_sound,
}
use mysql_seed.TimeString.Datetime.{datetime_text}

-- At "7": the last second is 2038-01-19 03:14:07, and 1970-01-01 00:00:01 comes after it.
pub timestamp_string_increment_overflow : List ℕ → List ℕ
timestamp_string_increment_overflow cells =
    if not (at cells 1 == b'0')
    then set cells 0 b'8'
    else if not (at cells 3 == b'4')
    then set cells 0 b'8'
    else if not (at cells 4 == b'1')
    then set cells 0 b'8'
    else if not (at cells 6 == b'3')
    then set cells 0 b'8'
    else if not (at cells 7 == b'0')
    then set cells 0 b'8'
    else if not (at cells 9 == b'9')
    then set cells 0 b'8'
    else if not (at cells 10 == b'1')
    then set cells 0 b'8'
    else if not (at cells 12 == b'1')
    then set cells 0 b'8'
    else if not (at cells 13 == b'0')
    then set cells 0 b'8'
    else if not (at cells 15 == b'8')
    then set cells 0 b'8'
    else if not (at cells 16 == b'3')
    then set cells 0 b'8'
    else if not (at cells 17 == b'0')
    then set cells 0 b'8'
    else if not (at cells 18 == b'2')
    then set cells 0 b'8'
    else set_string (set_string cells 18 (codes "1970")) 10 (codes "01 00:00:01")

pub timestamp_string_increment : List ℕ → List ℕ
timestamp_string_increment cells =
    if at cells 0 == b'7'
    then timestamp_string_increment_overflow cells
    else switch_text next_digit cells 0 []
        (increment_minute (on_date (increment_date increment_timestamp_year)) cells)

-- not the last second of the type
abbrev pub BeforeEnd : ℕ → ℕ → ℕ → ℕ → Type 0
BeforeEnd y m d t = (y ≢ 2038) ⊎ (m ≢ 1) ⊎ (d ≢ 19) ⊎ (t ≢ 11647)

no_overflow :
    (y m d t : ℕ)
    → y ≤ 2038
    → m ≤ 12
    → d ≤ 31
    → t < 86400
    → t % 10 ≡ 7
    → BeforeEnd y m d t
    → timestamp_string_increment_overflow (datetime_text y m d t)
      ≡ set (datetime_text y m d t) 0 b'8'
unfolding timestamp_string_increment_overflow
no_overflow y m d t hy hm hd ht e b = ground arith

-- the switches on the year, which know the turn of no millennium but the second
timestamp_year_next :
    (y m d : ℕ)
    → 1000 ≤ y
    → y ≤ 2038
    → increment_timestamp_year (date_text y m d) ≡ next_date y none
unfolding increment_timestamp_year
timestamp_year_next y m d low h =
    let cells = date_text y m d in
    let last = set_string cells 9 (codes "2000-01-01") in
    let hundreds = switch_text next_digit cells 8 (codes "00-01-01") last in
    let tens = switch_text next_digit cells 7 (codes "0-01-01") hundreds in
    rw (lt→ltb y 9999 (omega arith)) (elim (dec_lt (y % 10) 9) [
      | yes p ↦
          switch_text-some next_digit cells 6 (codes "-01-01") tens (next_digit-some (y % 10) p)
          ∙ same_year (y + 1) (omega arith)
      | no p ↦
          switch_text-none next_digit cells 6 (codes "-01-01") tens
            (next_digit-none (y % 10) (omega arith))
          ∙ elim (dec_lt (y / 10 % 10) 9) [
            | yes q ↦
                switch_text-some next_digit cells 7 (codes "0-01-01") hundreds
                  (next_digit-some (y / 10 % 10) q)
                ∙ same_year (y + 1) (omega arith)
            | no q ↦
                switch_text-none next_digit cells 7 (codes "0-01-01") hundreds
                  (next_digit-none (y / 10 % 10) (omega arith))
                ∙ elim (dec_lt (y / 100 % 10) 9) [
                  | yes r ↦
                      switch_text-some next_digit cells 8 (codes "00-01-01") last
                        (next_digit-some (y / 100 % 10) r)
                      ∙ same_year (y + 1) (omega arith)
                  | no r ↦
                      switch_text-none next_digit cells 8 (codes "00-01-01") last
                        (next_digit-none (y / 100 % 10) (omega arith))
                      ∙ same_year (y + 1) (omega arith)
                ]
          ]
    ])

module _ (y m d t : ℕ) (low : 1000 ≤ y) (hy : y ≤ 2038) (r : OnCalendar (gregorian y) m d)
    (h : t < 86400) where
  -- the string of the next second
  abbrev pub after : List ℕ
  after =
      if ltb t 86399
      then datetime_text y m d (t + 1)
      else clock 0 b' ' (next_date y (next_day (gregorian y) m d))

  date_part :
      increment_date increment_timestamp_year (date_text y m d)
      ≡ next_date y (next_day (gregorian y) m d)
  date_part =
      date_next increment_timestamp_year y m d _ (omega arith) (timestamp_year_next y m d low hy)
        (follows_sound (gregorian y) m d r)

  other_digit :
      switch_text next_digit (datetime_text y m d t) 0 [] (
        increment_minute
          (on_date (increment_date increment_timestamp_year))
          (datetime_text y m d t))
      ≡ after
  other_digit =
      rw (← date_part)
        (second_next (on_date (increment_date increment_timestamp_year)) t b' ' (date_text y m d) h)

  -- For every second of a day of the Gregorian calendar (leap years by `gregorian`, months by
  -- `month_days`) from 1000 to 2038 that is on no day of the two irregular kinds (`OnCalendar`) and
  -- is not the last second of the type, 2038-01-19 03:14:07, `timestamp_string_increment` turns the
  -- string of that second into the string of the next one.
  pub timestamp_string_increment-next :
      BeforeEnd y m d t → timestamp_string_increment (datetime_text y m d t) ≡ after
  unfolding timestamp_string_increment
  timestamp_string_increment-next b = elim (ℕ_discrete (t % 10) 7) [
    | yes e ↦
        rw
          (
            eq→== (b'0' + t % 10) b'7' (omega arith),
            no_overflow y m d t hy (omega arith) (omega (arith, month_days-le (gregorian y) m)) h e
                b,
            lt→ltb t 86399 (omega arith),
          )
          (same_clock (t + 1) b' ' (date_text y m d) (omega arith))
    | no e ↦ rw (ne→== (b'0' + t % 10) b'7' (omega arith)) other_digit
  ]
