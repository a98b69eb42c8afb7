-- ===== src/TimeString/Init/Round.antt =====
-- The strings that `timestamp_string_init` writes are those that `datetime_string_increment` counts
-- through, but on two days of each month.
use mysql_seed.Prelude.{
  ℕ, ◌+◌, ◌*◌, ◌/◌, ◌%◌, ◌≤◌, ◌<◌, ◌≡◌, refl, ap, ◌∙◌, ◌≢◌, ◌⊎◌, inl, inr, Bool, true, false, ◌||◌,
  List, [], ◌∷◌, ◌++◌, arith, ◌==◌, ne→==, all_below, all_below_sound,
}
use mysql_seed.Cells.{digit_to_ascii}
use mysql_seed.Cells.Digits.{digit_to_ascii_lem}
use mysql_seed.Time.{Timestamp}
use mysql_seed.TimeString.Calendar.{list_eq, list_eq_sound}
use mysql_seed.TimeString.Datetime.{datetime_text}
use mysql_seed.TimeString.Init.{
  month_string, day_string, hour_string, minute_string, second_string, timestamp_string_init,
}

abbrev pub forward : List ℕ → List ℕ
forward [] = []
forward (x ∷ xs) = forward xs ++ x ∷ []

-- two decimal digits, then a character
abbrev pub two : ℕ → ℕ → List ℕ
two n c = (b'0' + n / 10) ∷ (b'0' + n % 10) ∷ c ∷ []

check_months : all_below 13 (λ n. n == 0 || list_eq (month_string n) (b'-' ∷ two n b'-')) ≡ true
unfolding list_eq
check_months = refl

check_days :
    all_below 32 (λ n. (n == 0 || (n == 4 || n == 5)) || list_eq (day_string n) (two n b' ')) ≡ true
unfolding list_eq
check_days = refl

check_hours : all_below 24 (λ n. list_eq (hour_string n) (two n b':')) ≡ true
unfolding list_eq
check_hours = refl

check_minutes : all_below 60 (λ n. list_eq (minute_string n) (two n b':')) ≡ true
unfolding list_eq
check_minutes = refl

check_seconds : all_below 60 (λ n. list_eq (second_string n ++ 0 ∷ []) (two n 0)) ≡ true
unfolding list_eq
check_seconds = refl

or_else : (a b : Bool) → a ≡ false → (a || b) ≡ true → b ≡ true
or_else a b e h = ground arith

month_string_lem : (n : ℕ) → 0 < n → n ≤ 12 → month_string n ≡ b'-' ∷ two n b'-'
month_string_lem n h k = list_eq_sound _ _ (
    or_else _ _ (ne→== n 0 (omega arith)) (
      all_below_sound 13 (λ n. n == 0 || list_eq (month_string n) (b'-' ∷ two n b'-')) n
        check_months (omega arith)))

day_string_lem : (n : ℕ) → 0 < n → n ≤ 31 → n ≢ 4 → n ≢ 5 → day_string n ≡ two n b' '
day_string_lem n h k four five = list_eq_sound _ _ (
    or_else _ _ (rw (ne→== n 0 (omega arith), ne→== n 4 four, ne→== n 5 five) refl) (
      all_below_sound 32
        (λ n. (n == 0 || (n == 4 || n == 5)) || list_eq (day_string n) (two n b' ')) n check_days
        (omega arith)))

module _ (n : ℕ) where
  hour_string_lem : n < 24 → hour_string n ≡ two n b':'
  hour_string_lem h =
      list_eq_sound _ _
        (all_below_sound 24 (λ n. list_eq (hour_string n) (two n b':')) n check_hours h)

  minute_string_lem : n < 60 → minute_string n ≡ two n b':'
  minute_string_lem h =
      list_eq_sound _ _
        (all_below_sound 60 (λ n. list_eq (minute_string n) (two n b':')) n check_minutes h)

  second_string_lem : n < 60 → second_string n ++ 0 ∷ [] ≡ two n 0
  second_string_lem h =
      list_eq_sound _ _
        (all_below_sound 60 (λ n. list_eq (second_string n ++ 0 ∷ []) (two n 0)) n check_seconds h)

digit : (d k : ℕ) → d ≡ k → k < 10 → digit_to_ascii d ≡ b'0' + k
digit d k e h = digit_to_ascii_lem d (omega arith) ∙ ap (λ n. b'0' + n) e

year_part :
    (ts : Timestamp)
    → ts.year ≤ 9999
    → timestamp_string_init ts
      ≡ (b'0' + ts.year / 1000)
          ∷ (b'0' + ts.year / 100 % 10)
          ∷ (b'0' + ts.year / 10 % 10)
          ∷ (b'0' + ts.year % 10)
          ∷ month_string ts.month
        ++ (day_string ts.day
            ++ (hour_string ts.hour
                ++ (minute_string ts.minute ++ (second_string ts.second ++ 0 ∷ []))))
unfolding timestamp_string_init
year_part ts h =
    let y = ts.year in
    rw
      (
        digit (y / 1000) (y / 1000) refl (omega arith),
        digit (y % 1000 / 100) (y / 100 % 10) (omega arith) (omega arith),
        digit (y % 1000 % 100 / 10) (y / 10 % 10) (omega arith) (omega arith),
        digit (y % 1000 % 100 % 10) (y % 10) (omega arith) (omega arith),
      )
      refl

same_time :
    (h m s t : ℕ)
    → h < 24
    → m < 60
    → s < 60
    → t ≡ h * 3600 + m * 60 + s
    → (t / 36000 ≡ h / 10)
      × (t / 3600 % 10 ≡ h % 10)
      × (t / 600 % 6 ≡ m / 10)
      × (t / 60 % 10 ≡ m % 10)
      × (t / 10 % 6 ≡ s / 10)
      × (t % 10 ≡ s % 10)
same_time h m s t a b c e = omega arith

-- For a timestamp in range whose day is neither the 4th nor the 5th, `timestamp_string_init` writes
-- the text of its date and its second of the day, in the form that the increments of the strings
-- work on, and ends it.
pub timestamp_string_init-datetime_text :
    (ts : Timestamp)
    → ts.year ≤ 9999
    → (0 < ts.month) × (ts.month ≤ 12)
    → (0 < ts.day) × (ts.day ≤ 31) × (ts.day ≢ 4) × (ts.day ≢ 5)
    → (ts.hour < 24) × (ts.minute < 60) × (ts.second < 60)
    → timestamp_string_init ts
      ≡ forward
          (datetime_text ts.year ts.month ts.day (ts.hour * 3600 + ts.minute * 60 + ts.second))
        ++ 0 ∷ []
timestamp_string_init-datetime_text ts y m d h =
    let t = ts.hour * 3600 + ts.minute * 60 + ts.second in
    let e = same_time ts.hour ts.minute ts.second t h.0 h.1 h.2 refl in
    rw
      (
        year_part ts y,
        month_string_lem ts.month m.0 m.1,
        day_string_lem ts.day d.0 d.1 d.2 d.3,
        hour_string_lem ts.hour h.0,
        minute_string_lem ts.minute h.1,
        second_string_lem ts.second h.2,
        e.0,
        e.1,
        e.2,
        e.3,
        e.4,
        e.5,
      )
      refl

-- The 4th and the 5th of a month are written as the 1st.
pub timestamp_string_init-fourth :
    (ts : Timestamp)
    → (ts.day ≡ 4) ⊎ (ts.day ≡ 5)
    → timestamp_string_init ts ≡ timestamp_string_init (record ts { day = 1 })
unfolding timestamp_string_init
timestamp_string_init-fourth ts (inl e) = rw e refl
timestamp_string_init-fourth ts (inr e) = rw e refl
