-- ===== src/Time/MonthDay.antt =====
-- `timestamp_set_month_day` against the calendar.
use mysql_seed.Prelude.{
  ℕ, zero, suc, ◌+◌, ◌-◌, ◌≤◌, ◌<◌, ◌≡◌, refl, Bool, true, not, ◌&&◌, ◌||◌, arith, ltb, leb, ◌==◌,
  if◌then◌else◌, ==→eq, all_below, all_below_sound,
}
use mysql_seed.Time.{Timestamp, timestamp_set_month_day}

-- the days of a month, for `leap` 0 or 1
abbrev pub days_of : ℕ → ℕ → ℕ
days_of leap m =
    if m == 2 then 28 + leap else if m == 4 || (m == 6 || (m == 9 || m == 11)) then 30 else 31

-- the days of the year before a month
abbrev pub days_before : ℕ → ℕ → ℕ
days_before leap zero = 0
days_before leap (suc zero) = 0
days_before leap (suc (suc m)) = days_before leap (suc m) + days_of leap (suc m)

-- the position in the year of a month and a day of it, from 1
abbrev pub position : ℕ → ℕ → ℕ → ℕ
position leap m d = days_before leap m + d

-- The day offset that the bounds of the header are compared with: from February on it is less the
-- leap day.
abbrev pub reduced : ℕ → ℕ → ℕ
reduced leap o = if ltb o 31 then o else o - leap

-- Where the bounds of the header lie: those of May, July and August put a day on the one before,
-- that of November on the one after.
abbrev pub early : ℕ → ℕ
early k = if (leb 121 k && leb k 150) || (leb 182 k && leb k 242) then 1 else 0

abbrev pub late : ℕ → ℕ
late k = if leb 303 k && leb k 333 then 1 else 0

-- from March on the leap day is added again
abbrev pub leap_shift : ℕ → ℕ → ℕ
leap_shift leap k = if leb 59 k then leap else 0

-- the offsets for which no bound is wrong: in a common year those outside May, July, August and
-- November and the three days before these months, in a leap year those before March
abbrev pub regular : ℕ → ℕ → Bool
regular leap o =
    ltb o 59
    || (if leap == 0
        then not
            ((leb 120 o && leb o 150) || ((leb 181 o && leb o 242) || (leb 303 o && leb o 333)))
        else o == 59)

abbrev blank : ℕ → Timestamp
blank leap = record {
  year = 0;
  leap_year = leap;
  month = 0;
  day = 0;
  hour = 0;
  minute = 0;
  second = 0;
}

abbrev is_date : ℕ → ℕ → ℕ → Bool
is_date leap m d = ltb 0 m && (leb m 12 && (ltb 0 d && leb d (days_of leap m)))

check_position : ℕ → ℕ → Bool
unfolding timestamp_set_month_day
check_position leap o =
    let ts = timestamp_set_month_day (blank leap) o in
    let k = reduced leap o in
    position leap ts.month ts.day + early k == o + 1 + late k + leap_shift leap k

check_date : ℕ → ℕ → Bool
unfolding timestamp_set_month_day
check_date leap o =
    let ts = timestamp_set_month_day (blank leap) o in
    not (regular leap o)
    || ((position leap ts.month ts.day == o + 1) && is_date leap ts.month ts.day)

positions : (all_below 365 (check_position 0) ≡ true) × (all_below 366 (check_position 1) ≡ true)
unfolding check_position
positions = (refl, refl)

dates : (all_below 365 (check_date 0) ≡ true) × (all_below 366 (check_date 1) ≡ true)
unfolding check_date
dates = (refl, refl)

-- A table of the offsets of a year, for either kind of year.
by_table :
    (p : ℕ → ℕ → Bool)
    → (all_below 365 (p 0) ≡ true) × (all_below 366 (p 1) ≡ true)
    → (leap o : ℕ) → leap ≤ 1
    → o < 365 + leap
    → p leap o ≡ true
by_table p t zero o h k = all_below_sound 365 (p 0) o t.0 (omega arith)
by_table p t (suc zero) o h k = all_below_sound 366 (p 1) o t.1 (omega arith)
by_table p t (suc (suc n)) o h k = absurd (omega arith)

read_date :
    (p n m d l : ℕ) (r : Bool)
    → r ≡ true
    → (not r || ((p == n) && (ltb 0 m && (leb m 12 && (ltb 0 d && leb d l))))) ≡ true
    → (p ≡ n) × (0 < m) × (m ≤ 12) × (0 < d) × (d ≤ l)
read_date p n m d l r e h = ground arith

-- the month and the day do not depend on the other fields
same_fields :
    (ts : Timestamp) (o : ℕ)
    → ((timestamp_set_month_day ts o).month
        ≡ (timestamp_set_month_day (blank ts.leap_year) o).month)
      × ((timestamp_set_month_day ts o).day ≡ (timestamp_set_month_day (blank ts.leap_year) o).day)
unfolding timestamp_set_month_day
same_fields ts o = ground arith

module _ (ts : Timestamp) (o : ℕ) (h : ts.leap_year ≤ 1) (k : o < 365 + ts.leap_year) where
  -- For a day offset within the year, the date that `timestamp_set_month_day` sets lies exactly at
  -- the offset, but one day before it in most of May, July and August, one day after it in
  -- November, and one day further on from March on in a leap year.
  pub timestamp_set_month_day-position :
      let ts' = timestamp_set_month_day ts o in
      position ts.leap_year ts'.month ts'.day + early (reduced ts.leap_year o)
      ≡ o + 1 + late (reduced ts.leap_year o) + leap_shift ts.leap_year (reduced ts.leap_year o)
  timestamp_set_month_day-position =
      let e = same_fields ts o in
      rw (e.0, e.1)
        (==→eq _ _ (unfold check_position in by_table check_position positions ts.leap_year o h k))

  -- For the day offsets of a common year outside the months whose bounds are wrong (`regular`), and
  -- those of a leap year before March, the month and the day that `timestamp_set_month_day` sets
  -- are a date of that year, the one that lies at the offset.
  pub timestamp_set_month_day-regular :
      regular ts.leap_year o ≡ true
      → let ts' = timestamp_set_month_day ts o in
        (position ts.leap_year ts'.month ts'.day ≡ o + 1)
        × (0 < ts'.month)
        × (ts'.month ≤ 12)
        × (0 < ts'.day)
        × (ts'.day ≤ days_of ts.leap_year ts'.month)
  timestamp_set_month_day-regular r =
      let e = same_fields ts o in
      let b = timestamp_set_month_day (blank ts.leap_year) o in
      rw (e.0, e.1)
        (read_date (position ts.leap_year b.month b.day) (o + 1) b.month b.day
          (days_of ts.leap_year b.month) (regular ts.leap_year o) r
          (unfold check_date in by_table check_date dates ts.leap_year o h k))
