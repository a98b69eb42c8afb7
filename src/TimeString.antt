-- ===== src/TimeString.antt =====
-- time/time_string.h: counting through the strings of TIMESTAMP and DATETIME columns,
-- "YYYY-MM-DD HH:MM:SS". The buffers are those of `Cells`, from back to front, and `ptr` starts at
-- the last character. From there on the indices are
--   0 1 seconds, 3 4 minutes, 6 7 hours, 9 10 day, 12 13 month, 15 to 18 year.
pub mod Clock
pub mod Calendar
pub mod Deviations
pub mod Datetime
pub mod Timestamp
pub mod Init
use mysql_seed.Prelude.{
  ℕ, zero, suc, ◌+◌, ◌-◌, ◌*◌, ◌/◌, ◌%◌, ◌^◌, ◌≤◌, ◌<◌, min, ◌≡◌, refl, sym, ap, ◌∙◌, ◌≢◌, ◌↔◌, ◌⊎◌,
  inl, inr, Bool, true, false, not, ◌&&◌, ◌||◌, Option, none, some, List, [], ◌∷◌, ◌++◌, map, arith,
  ltb, leb, ◌==◌, if◌then◌else◌, eq→==, ==→eq, lt→ltb, ltb→lt, le→ltb, Bool-cases, Option-cases,
  length, get_or, set, replicate, length-append, length-replicate, all_below, all_below_sound, sum,
  sum-append, codes,
}
use mathlib.Core.Option
use mysql_seed.Time.{is_leap_year}
use mysql_seed.Cells.{at, set_string, next_digit, switch_text, ascii_to_digit}

-- the cases of the switches on the tens of seconds and of minutes
unfoldable pub next_tens : ℕ → Option ℕ
next_tens c =
    if c == b'0'
    then some b'1'
    else if c == b'1'
    then some b'2'
    else if c == b'2'
    then some b'3'
    else if c == b'3'
    then some b'4'
    else if c == b'4'
    then some b'5'
    else none

-- The year that `increment_day` reads, with `ptr` on the last digit of the day; `cells` are the bytes
-- at and before it.
pub read_year : List ℕ → ℕ
read_year cells =
    (ascii_to_digit (at cells 6)
      + ascii_to_digit (at cells 7) * 10
      + ascii_to_digit (at cells 8) * 100
      + ascii_to_digit (at cells 9) * 1000)
    % 2 ^ 32

-- `default` of the switch on the day: "X0", and ill-formed days
day_zero : List ℕ → List ℕ
day_zero cells =
    if not (at cells 1 == b'3')
    then set cells 0 b'1'
    else if at cells 4 == b'1'
    then (if at cells 3 == b'2' then set cells 0 b'1' else set_string cells 3 (codes "2-01"))
    else if at cells 3 == b'4'
    then set_string cells 3 (codes "5-01")
    else if at cells 3 == b'6'
    then set_string cells 3 (codes "7-01")
    else if at cells 3 == b'9'
    then set_string cells 4 (codes "10-01")
    else set cells 0 b'1'

-- the switch on the month of a 31st
month_end : List ℕ → List ℕ
month_end cells =
    if at cells 3 == b'0'
    then set_string cells 3 (codes "1-01")
    else if at cells 3 == b'1'
    then set_string cells 3 (codes "2-01")
    else if at cells 3 == b'3'
    then set_string cells 3 (codes "4-01")
    else if at cells 3 == b'5'
    then set_string cells 3 (codes "6-01")
    else if at cells 3 == b'7'
    then set_string cells 3 (codes "8-01")
    else set_string cells 3 (codes "9-01")

-- (ptr[-4] == '1') || (ptr[-3] != '2') || (ptr[-1] != '2')
not_late_february : List ℕ → Bool
not_late_february cells =
    (at cells 4 == b'1') || (not (at cells 3 == b'2') || not (at cells 1 == b'2'))

-- ++(ptr[-1]); *ptr = '0';
next_ten_days : List ℕ → List ℕ
next_ten_days cells = set (set cells 1 ((at cells 1 + 1) % 256)) 0 b'0'

-- The switch on the day, "YYYY-MM-Dx 00:00:00"; `cells` are the bytes at and before `ptr`, and `leap`
-- is the test on the year that one of its branches makes. `none` is the `break` to the year.
pub increment_day : Bool → List ℕ → Option (List ℕ)
unfolding day_zero month_end not_late_february next_ten_days
increment_day leap cells =
    let c = at cells 0 in
    if c == b'1'
    then (if not (at cells 1 == b'3')
        then some (set cells 0 b'2')
        else if at cells 4 == b'1'
        then none
        else some (month_end cells))
    else if c == b'2'
    then some (set cells 0 b'3')
    else if c == b'3'
    then some (set cells 0 b'4')
    else if c == b'4'
    then some (set cells 0 b'5')
    else if c == b'5'
    then some (set cells 0 b'6')
    else if c == b'6'
    then some (set cells 0 b'7')
    else if c == b'7'
    then some (set cells 0 b'8')
    else if c == b'8'
    then (if not_late_february cells
        then some (next_ten_days cells)
        else if leap
        then some (set cells 0 b'9')
        else some (set_string cells 3 (codes "3-01")))
    else if c == b'9'
    then (if not_late_february cells
        then some (next_ten_days cells)
        else some (set_string cells 4 (codes "03-01")))
    else some (day_zero cells)

-- The switches on the year of a DATETIME; `cells` are the bytes at and before the last digit of the
-- day, so that of the year is at 6.
pub increment_datetime_year : List ℕ → List ℕ
increment_datetime_year cells = switch_text next_digit cells 6 (codes "-01-01") (
    switch_text next_digit cells 7 (codes "0-01-01") (
      switch_text next_digit cells 8 (codes "00-01-01") (
        switch_text next_digit cells 9 (codes "000-01-01")
          (set_string cells 9 (codes "1000-01-01")))))

-- Those of a TIMESTAMP.
pub increment_timestamp_year : List ℕ → List ℕ
increment_timestamp_year cells = switch_text next_digit cells 6 (codes "-01-01") (
    switch_text next_digit cells 7 (codes "0-01-01")
      (switch_text next_digit cells 8 (codes "00-01-01") (set_string cells 9 (codes "2000-01-01"))))

-- The switch on the day and what follows it, given the switches on the year.
pub increment_date : (List ℕ → List ℕ) → List ℕ → List ℕ
increment_date year cells = elim (increment_day (is_leap_year (read_year cells)) cells) [
  | some cells' ↦ cells'
  | none ↦ year cells
]

-- What the switch on the hours does at '3': behind '2' the day is over.
hour_three : (List ℕ → List ℕ) → List ℕ → List ℕ
hour_three date cells =
    if at cells 7 == b'2'
    then date (set_string cells 7 (codes "00:00:00"))
    else set_string cells 6 (codes "4:00:00")

-- its default
hour_nine : List ℕ → List ℕ
hour_nine cells =
    if at cells 7 == b'0'
    then set_string cells 7 (codes "10:00:00")
    else set_string cells 7 (codes "20:00:00")

-- The switch on the hours, "YYYY-MM-DD Hx:00:00".
pub increment_hour : (List ℕ → List ℕ) → List ℕ → List ℕ
unfolding hour_three hour_nine
increment_hour date cells =
    if at cells 6 == b'3'
    then hour_three date cells
    else switch_text next_digit cells 6 (codes ":00:00") (hour_nine cells)

-- The switches on the tens of seconds and on the minutes.
pub increment_minute : (List ℕ → List ℕ) → List ℕ → List ℕ
unfolding increment_hour
increment_minute date cells = switch_text next_tens cells 1 (codes "0") (
    switch_text next_digit cells 3 (codes ":00")
      (switch_text next_tens cells 4 (codes "0:00") (increment_hour date cells)))

-- The nine bytes of the time of day are left alone, the rest is the date.
abbrev pub on_date : (List ℕ → List ℕ) → List ℕ → List ℕ
on_date f (a ∷ b ∷ c ∷ d ∷ e ∷ g ∷ h ∷ i ∷ j ∷ r) = a ∷ b ∷ c ∷ d ∷ e ∷ g ∷ h ∷ i ∷ j ∷ f r
on_date f cells = cells

pub datetime_string_increment : List ℕ → List ℕ
unfolding increment_minute
datetime_string_increment cells =
    switch_text next_digit cells 0 []
      (increment_minute (on_date (increment_date increment_datetime_year)) cells)
