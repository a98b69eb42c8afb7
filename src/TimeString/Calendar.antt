-- ===== src/TimeString/Calendar.antt =====
-- The date of a DATETIME string: where the switches on the day follow the calendar, and where not.
use mysql_seed.Prelude.{
  ℕ, ◌+◌, ◌/◌, ◌%◌, ◌≤◌, ◌<◌, ◌≡◌, refl, ap, ◌∙◌, Bool, true, false, not, ◌&&◌, ◌||◌, Option, none,
  some, List, [], ◌∷◌, ◌++◌, arith, ltb, leb, ◌==◌, if◌then◌else◌, lt→ltb, le→ltb, ne→==, all_below,
  all_below_sound, codes,
}
use mathlib.Core.Option
use native.Mathlib.Decide.{dec_lt}
use mysql_seed.Cells.{next_digit, switch_text, set_string}
use mysql_seed.Cells.Switch.{switch_text-some, switch_text-none}
use mysql_seed.Cells.Digits.{next_digit-some, next_digit-none}
use mysql_seed.Time.{is_leap_year}
use mysql_seed.Time.Leap.{gregorian, is_leap_year-gregorian}
use mysql_seed.TimeString.{read_year, increment_day, increment_date, increment_datetime_year}

-- the days of a month
abbrev pub month_days : Bool → ℕ → ℕ
month_days leap m =
    if m == 2
    then (if leap then 29 else 28)
    else if m == 4 || (m == 6 || (m == 9 || m == 11))
    then 30
    else 31

-- "MM-DD", back to front
abbrev pub day_text : ℕ → ℕ → List ℕ
day_text m d = (b'0' + d % 10) ∷ (b'0' + d / 10) ∷ b'-' ∷ (b'0' + m % 10) ∷ (b'0' + m / 10) ∷ []

-- the calendar: the day after a day of a year, or none after its last
abbrev pub next_day : Bool → ℕ → ℕ → Option (ℕ × ℕ)
next_day leap m d =
    if ltb d (month_days leap m)
    then some (m, d + 1)
    else if ltb m 12
    then some (m + 1, 1)
    else none

abbrev pub next_text : Option (ℕ × ℕ) → Option (List ℕ)
next_text none = none
next_text (some (m, d)) = some (day_text m d)

-- The days on which the switches leave the calendar: those ending in 8, but for February 28, and the
-- last two of October.
abbrev pub off_calendar : ℕ → ℕ → Bool
off_calendar m d = (d % 10 == 8 && not (m == 2 && d == 28)) || (m == 10 && leb 30 d)

unfoldable pub list_eq : List ℕ → List ℕ → Bool
list_eq [] [] = true
list_eq (x ∷ xs) (y ∷ ys) = (x == y) && list_eq xs ys
list_eq _ _ = false

unfoldable pub option_eq : Option (List ℕ) → Option (List ℕ) → Bool
unfolding list_eq
option_eq none none = true
option_eq (some x) (some y) = list_eq x y
option_eq _ _ = false

pub list_eq_sound : (xs ys : List ℕ) → list_eq xs ys ≡ true → xs ≡ ys
unfolding list_eq
list_eq_sound [] [] h = refl
list_eq_sound [] (y ∷ ys) h = cc
list_eq_sound (x ∷ xs) [] h = cc
list_eq_sound (x ∷ xs) (y ∷ ys) h = ground (arith, list_eq_sound xs ys)

pub option_eq_sound : (a b : Option (List ℕ)) → option_eq a b ≡ true → a ≡ b
unfolding option_eq
option_eq_sound none none h = refl
option_eq_sound none (some y) h = cc
option_eq_sound (some x) none h = cc
option_eq_sound (some x) (some y) h = ap some (list_eq_sound x y h)

-- the comparison that the table below makes for each day of a year
follows : Bool → ℕ → ℕ → Bool
unfolding option_eq increment_day
follows leap m d =
    (off_calendar m d || (m == 0 || (d == 0 || ltb (month_days leap m) d)))
    || option_eq (increment_day leap (day_text m d)) (next_text (next_day leap m d))

table : (leap : Bool) → all_below 13 (λ m. all_below 32 (λ d. follows leap m d)) ≡ true
unfolding follows
table true = refl
table false = refl

-- the switches read and write the five characters of the month and the day only
increment_day-append :
    (leap : Bool) (a b c d e : ℕ) (rest : List ℕ)
    → increment_day leap (a ∷ b ∷ c ∷ d ∷ e ∷ rest)
      ≡ Option.map (λ r. r ++ rest) (increment_day leap (a ∷ b ∷ c ∷ d ∷ e ∷ []))
unfolding increment_day
increment_day-append leap a b c d e rest = ground arith

pub or-left_false : (a b : Bool) → a ≡ false → (a || b) ≡ true → b ≡ true
or-left_false a b e h = ground arith

pub month_days-le : (leap : Bool) (m : ℕ) → month_days leap m ≤ 31
month_days-le leap m = ground arith

in_table : (leap : Bool) (m d : ℕ) → m < 13 → d < 32 → follows leap m d ≡ true
in_table leap m d hm hd =
    all_below_sound 32 (λ k. follows leap m k) d
      (all_below_sound 13 (λ k. all_below 32 (λ j. follows leap k j)) m (table leap) hm) hd

-- a day of the calendar on which the switches follow it
pub record OnCalendar (leap : Bool) (m d : ℕ) : Type 0 where
  pub month : (0 < m) × (m ≤ 12)
  pub day : (0 < d) × (d ≤ month_days leap m)
  pub regular : off_calendar m d ≡ false

regular_day :
    (leap : Bool) (m d : ℕ)
    → OnCalendar leap m d
    → (off_calendar m d || (m == 0 || (d == 0 || ltb (month_days leap m) d))) ≡ false
regular_day leap m d r =
    rw
      (
        r.regular,
        ne→== m 0 (omega arith),
        ne→== d 0 (omega arith),
        le→ltb (month_days leap m) d (r.day.1),
      )
      refl

pub follows_sound :
    (leap : Bool) (m d : ℕ)
    → OnCalendar leap m d
    → increment_day leap (day_text m d) ≡ next_text (next_day leap m d)
unfolding follows
follows_sound leap m d r = option_eq_sound _ _ (
    or-left_false _ _ (regular_day leap m d r)
      (in_table leap m d (omega arith) (omega (arith, month_days-le leap m))))

-- the year, back to front
abbrev pub year_text : ℕ → List ℕ
year_text y =
    (b'0' + y % 10) ∷ (b'0' + y / 10 % 10) ∷ (b'0' + y / 100 % 10) ∷ (b'0' + y / 1000) ∷ []

abbrev pub date_text : ℕ → ℕ → ℕ → List ℕ
date_text y m d = day_text m d ++ b'-' ∷ year_text y

-- the calendar, from the year 1000 again after 9999-12-31
abbrev pub next_date : ℕ → Option (ℕ × ℕ) → List ℕ
next_date y (some (m, d)) = date_text y m d
next_date y none = date_text (if ltb y 9999 then y + 1 else 1000) 1 1

read_year-date_text : (y m d : ℕ) → y ≤ 9999 → read_year (date_text y m d) ≡ y
unfolding read_year
read_year-date_text y m d h = omega arith

pub same_year :
    (y : ℕ) {a b c d : ℕ}
    → (a ≡ b'0' + y % 10)
      × (b ≡ b'0' + y / 10 % 10)
      × (c ≡ b'0' + y / 100 % 10)
      × (d ≡ b'0' + y / 1000)
    → day_text 1 1 ++ b'-' ∷ a ∷ b ∷ c ∷ d ∷ [] ≡ date_text y 1 1
same_year y h = cc (h.0, h.1, h.2, h.3)

pub year_next :
    (y m d : ℕ) → y ≤ 9999 → increment_datetime_year (date_text y m d) ≡ next_date y none
unfolding increment_datetime_year
year_next y m d h =
    let cells = date_text y m d in
    let last = set_string cells 9 (codes "1000-01-01") in
    let thousands = switch_text next_digit cells 9 (codes "000-01-01") last in
    let hundreds = switch_text next_digit cells 8 (codes "00-01-01") thousands in
    let tens = switch_text next_digit cells 7 (codes "0-01-01") hundreds in
    elim (dec_lt (y % 10) 9) [
      | yes p ↦
          switch_text-some next_digit cells 6 (codes "-01-01") tens (next_digit-some (y % 10) p)
          ∙ rw (lt→ltb y 9999 (omega arith)) (same_year (y + 1) (omega arith))
      | no p ↦
          switch_text-none next_digit cells 6 (codes "-01-01") tens
            (next_digit-none (y % 10) (omega arith))
          ∙ elim (dec_lt (y / 10 % 10) 9) [
            | yes q ↦
                switch_text-some next_digit cells 7 (codes "0-01-01") hundreds
                  (next_digit-some (y / 10 % 10) q)
                ∙ rw (lt→ltb y 9999 (omega arith)) (same_year (y + 1) (omega arith))
            | no q ↦
                switch_text-none next_digit cells 7 (codes "0-01-01") hundreds
                  (next_digit-none (y / 10 % 10) (omega arith))
                ∙ elim (dec_lt (y / 100 % 10) 9) [
                  | yes r ↦
                      switch_text-some next_digit cells 8 (codes "00-01-01") thousands
                        (next_digit-some (y / 100 % 10) r)
                      ∙ rw (lt→ltb y 9999 (omega arith)) (same_year (y + 1) (omega arith))
                  | no r ↦
                      switch_text-none next_digit cells 8 (codes "00-01-01") thousands
                        (next_digit-none (y / 100 % 10) (omega arith))
                      ∙ elim (dec_lt (y / 1000) 9) [
                        | yes t ↦
                            switch_text-some next_digit cells 9 (codes "000-01-01") last
                              (next_digit-some (y / 1000) t)
                            ∙ rw (lt→ltb y 9999 (omega arith)) (same_year (y + 1) (omega arith))
                        | no t ↦
                            switch_text-none next_digit cells 9 (codes "000-01-01") last
                              (next_digit-none (y / 1000) (omega arith))
                            ∙ rw (le→ltb y 9999 (omega arith)) (same_year 1000 (omega arith))
                      ]
                ]
          ]
    ]

date_of : (List ℕ → List ℕ) → List ℕ → Option (List ℕ) → List ℕ
date_of year cells none = year cells
date_of year cells (some cells') = cells'

date_step :
    (year : List ℕ → List ℕ) (cells : List ℕ)
    → increment_date year cells
      ≡ date_of year cells (increment_day (is_leap_year (read_year cells)) cells)
unfolding increment_date date_of
date_step year cells = ground arith

day_of_date :
    (y m d : ℕ) (n : Option (ℕ × ℕ))
    → y ≤ 9999
    → increment_day (gregorian y) (day_text m d) ≡ next_text n
    → increment_day (is_leap_year (read_year (date_text y m d))) (date_text y m d)
      ≡ Option.map (λ r. r ++ b'-' ∷ year_text y) (next_text n)
day_of_date y m d n h e =
    rw (read_year-date_text y m d h, is_leap_year-gregorian y)
      (increment_day-append (gregorian y) (b'0' + d % 10) (b'0' + d / 10) b'-' (b'0' + m % 10)
          (b'0' + m / 10) (b'-' ∷ year_text y)
        ∙ ap (Option.map (λ r. r ++ b'-' ∷ year_text y)) e)

-- for the switches on the year of either type
pub date_next :
    (year : List ℕ → List ℕ) (y m d : ℕ) (n : Option (ℕ × ℕ))
    → y ≤ 9999
    → year (date_text y m d) ≡ next_date y none
    → increment_day (gregorian y) (day_text m d) ≡ next_text n
    → increment_date year (date_text y m d) ≡ next_date y n
unfolding date_of
date_next year y m d n h last e =
    date_step year (date_text y m d)
    ∙ ap (date_of year (date_text y m d)) (day_of_date y m d n h e)
    ∙ finish n
  where
    finish :
        (k : Option (ℕ × ℕ))
        → date_of year (date_text y m d) (Option.map (λ r. r ++ b'-' ∷ year_text y) (next_text k))
          ≡ next_date y k
    finish none = last
    finish (some (m', d')) = refl

-- At the end of a day of the calendar that does not end in 8 (February 28 may) and is not one of the
-- last two of October, the date becomes that of the next day; after 9999-12-31 it becomes that of
-- 1000-01-01.
pub increment_date-calendar :
    (y m d : ℕ)
    → y ≤ 9999
    → OnCalendar (gregorian y) m d
    → increment_date increment_datetime_year (date_text y m d)
      ≡ next_date y (next_day (gregorian y) m d)
increment_date-calendar y m d h r =
    date_next increment_datetime_year y m d _ h (year_next y m d h)
      (follows_sound (gregorian y) m d r)
