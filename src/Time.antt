-- ===== src/Time.antt =====
-- time/time_utils.h: leap years and struct Timestamp. `time_t` is a number of seconds that is not
-- negative, as `time` returns it when it does not fail.
pub mod MonthDay
pub mod Leap
pub mod Init
use mysql_seed.Prelude.{
  ℕ, zero, suc, ◌+◌, ◌-◌, ◌*◌, ◌/◌, ◌%◌, ◌^◌, ◌≤◌, ◌<◌, min, ◌≡◌, refl, sym, ap, ◌∙◌, ◌≢◌, ◌↔◌, ◌⊎◌,
  inl, inr, Bool, true, false, not, ◌&&◌, ◌||◌, Option, none, some, List, [], ◌∷◌, ◌++◌, map, arith,
  ltb, leb, ◌==◌, if◌then◌else◌, eq→==, ==→eq, lt→ltb, ltb→lt, le→ltb, ne→==, Bool-cases,
  Option-cases, length, get_or, set, replicate, length-append, length-replicate, all_below,
  all_below_sound, sum, sum-append, codes,
}

unfoldable pub is_leap_year : ℕ → Bool
is_leap_year year =
    if not (year % 4 == 0) then false else if not (year % 100 == 0) then true else year % 400 == 0

-- `leap_year` is 0 or 1, `year` a uint16_t and the rest are uint8_t
pub record Timestamp : Type 0 where
  pub year : ℕ
  pub leap_year : ℕ
  pub month : ℕ
  pub day : ℕ
  pub hour : ℕ
  pub minute : ℕ
  pub second : ℕ

-- a - b in unsigned int
abbrev pub sub_u32 : ℕ → ℕ → ℕ
sub_u32 a b = (a + 2 ^ 32 - b) % 2 ^ 32

-- timestamp->month = m; timestamp->day = day_offset + timestamp->leap_year - offset_max;
set_in_month : Timestamp → ℕ → ℕ → ℕ → Timestamp
set_in_month ts m day_offset offset_max = record ts {
  month = m;
  day = sub_u32 (day_offset + ts.leap_year) offset_max % 256;
}

-- the tests behind `day_offset -= timestamp->leap_year`
set_after_january : Timestamp → ℕ → Timestamp
unfolding set_in_month
set_after_january ts day_offset =
    if ltb day_offset 182
    then (if ltb day_offset 121
        then (if ltb day_offset 90
            then (if ltb day_offset 59
                then set_in_month ts 2 day_offset 30
                else set_in_month ts 3 day_offset 58)
            else set_in_month ts 4 day_offset 89)
        else if ltb day_offset 151
        then set_in_month ts 5 day_offset 120
        else set_in_month ts 6 day_offset 150)
    else if ltb day_offset 273
    then (if ltb day_offset 243
        then (if ltb day_offset 213
            then set_in_month ts 7 day_offset 181
            else set_in_month ts 8 day_offset 212)
        else set_in_month ts 9 day_offset 242)
    else if ltb day_offset 334
    then (if ltb day_offset 303
        then set_in_month ts 10 day_offset 272
        else set_in_month ts 11 day_offset 302)
    else set_in_month ts 12 day_offset 333

-- The numbers are the constants FEBRUARY_DAY_OFFSET_MIN, ... of the header.
pub timestamp_set_month_day : Timestamp → ℕ → Timestamp
unfolding set_after_january
timestamp_set_month_day ts day_offset =
    if ltb day_offset 31
    then record ts { month = 1; day = (1 + day_offset) % 256 }
    else set_after_january ts (sub_u32 day_offset ts.leap_year)

-- `rem_seconds` is a uint64_t; TIME_SECONDS_OFFSET, _PER_YEAR, _PER_DAY, _PER_HOUR and _PER_MINUTE
pub timestamp_init : ℕ → Timestamp
timestamp_init time =
    let rem_seconds = (time + 62167208832) % 2 ^ 64 in
    let year = rem_seconds / 31556952 % 2 ^ 16 in
    let leap_year : ℕ = if is_leap_year year then 1 else 0 in
    let rem_year = rem_seconds % 31556952 in
    let rem_day = rem_year % 86400 in
    let rem_hour = rem_day % 3600 in
    let dated =
      timestamp_set_month_day
        (record {
          year = year;
          leap_year = leap_year;
          month = 0;
          day = 0;
          hour = 0;
          minute = 0;
          second = 0;
        })
        (rem_year / 86400) in
    record dated { hour = rem_day / 3600; minute = rem_hour / 60; second = rem_hour % 60 }
