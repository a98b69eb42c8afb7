-- ===== src/TimeString/Deviations.antt =====
-- The days on which the switches leave the calendar.
use mysql_seed.Prelude.{
  ℕ, ◌+◌, ◌%◌, ◌≤◌, ◌<◌, ◌≡◌, refl, Bool, true, false, not, ◌&&◌, ◌||◌, none, some, arith, ltb,
  ◌==◌, if◌then◌else◌, eq→==, le→ltb, ne→==, all_below, all_below_sound,
}
use mysql_seed.Time.Leap.{gregorian}
use mysql_seed.TimeString.{increment_day, increment_date, increment_datetime_year}
use mysql_seed.TimeString.Calendar.{
  day_text, month_days, option_eq, option_eq_sound, date_text, date_next, year_next, or-left_false,
  month_days-le,
}

-- the comparison for the days that end in 8
skips : Bool → ℕ → ℕ → Bool
unfolding option_eq increment_day
skips leap m d =
    (m == 0 || (not (d % 10 == 8) || ((m == 2 && d == 28) || ltb (month_days leap m) d)))
    || option_eq (increment_day leap (day_text m d)) (some (day_text m (d + 2)))

skips_table : (leap : Bool) → all_below 13 (λ m. all_below 32 (λ d. skips leap m d)) ≡ true
unfolding skips
skips_table true = refl
skips_table false = refl

skips_sound :
    (leap : Bool) (m d : ℕ)
    → 0 < m
    → m ≤ 12
    → d % 10 ≡ 8
    → d ≤ month_days leap m
    → (m == 2 && d == 28) ≡ false
    → increment_day leap (day_text m d) ≡ some (day_text m (d + 2))
unfolding skips
skips_sound leap m d hm hm' h8 hd f = option_eq_sound _ _ (
    or-left_false
      (m == 0 || (not (d % 10 == 8) || ((m == 2 && d == 28) || ltb (month_days leap m) d))) _
      (rw (ne→== m 0 (omega arith), eq→== (d % 10) 8 h8, f, le→ltb (month_days leap m) d hd) refl)
      (all_below_sound 32 (λ k. skips leap m k) d
        (all_below_sound 13 (λ k. all_below 32 (λ j. skips leap k j)) m (skips_table leap)
          (omega arith))
        (omega (arith, month_days-le leap m))))

-- At the end of a day of a month that ends in 8, other than February 28, the date becomes that of
-- the day after the next: the 9th, the 19th and the 29th do not occur.
pub increment_date-skips :
    (y m d : ℕ)
    → y ≤ 9999
    → 0 < m
    → m ≤ 12
    → d % 10 ≡ 8
    → d ≤ month_days (gregorian y) m
    → (m == 2 && d == 28) ≡ false
    → increment_date increment_datetime_year (date_text y m d) ≡ date_text y m (d + 2)
increment_date-skips y m d h hm hm' h8 hd f =
    date_next increment_datetime_year y m d (some (m, d + 2)) h (year_next y m d h)
      (skips_sound (gregorian y) m d hm hm' h8 hd f)

october :
    (leap : Bool)
    → (increment_day leap (day_text 10 30) ≡ some (day_text 12 1))
      × (increment_day leap (day_text 10 31) ≡ none)
unfolding increment_day
october leap = (refl, refl)

-- At the end of October 30 the date becomes December 1, and at the end of October 31 it becomes
-- January 1 of the next year (of the year 1000 after 9999).
pub increment_date-october :
    (y : ℕ)
    → y ≤ 9999
    → (increment_date increment_datetime_year (date_text y 10 30) ≡ date_text y 12 1)
      × (increment_date increment_datetime_year (date_text y 10 31)
          ≡ date_text (if ltb y 9999 then y + 1 else 1000) 1 1)
increment_date-october y h =
    let o = october (gregorian y) in
    (
      date_next increment_datetime_year y 10 30 (some (12, 1)) h (year_next y 10 30 h) o.0,
      date_next increment_datetime_year y 10 31 none h (year_next y 10 31 h) o.1,
    )
