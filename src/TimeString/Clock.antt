-- ===== src/TimeString/Clock.antt =====
-- The time of day of a DATETIME string.
use mysql_seed.Prelude.{
  ℕ, ◌+◌, ◌/◌, ◌%◌, ◌<◌, ◌≡◌, refl, ◌∙◌, none, some, List, [], ◌∷◌, arith, ltb, if◌then◌else◌,
  eq→==, lt→ltb, le→ltb, ne→==, codes,
}
use native.Mathlib.Decide.{dec_lt, ℕ_discrete}
use mysql_seed.Cells.{next_digit, switch_text}
use mysql_seed.Cells.Switch.{switch_text-some, switch_text-none}
use mysql_seed.Cells.Digits.{next_digit-some, next_digit-none}
use mysql_seed.TimeString.{
  hour_three, hour_nine, next_tens, datetime_string_increment, increment_minute, increment_hour,
  on_date, increment_date, increment_datetime_year,
}

next_tens-some : (k : ℕ) → k < 5 → next_tens (b'0' + k) ≡ some (b'0' + (k + 1))
unfolding next_tens
next_tens-some k h = ground arith

next_tens-none : (k : ℕ) → k ≡ 5 → next_tens (b'0' + k) ≡ none
unfolding next_tens
next_tens-none k h = rw h

-- The string of a time of day, `t` seconds after midnight, back to front, before the date.
abbrev pub clock : ℕ → ℕ → List ℕ → List ℕ
clock t z date =
    (b'0' + t % 10)
    ∷ (b'0' + t / 10 % 6)
    ∷ b':'
    ∷ (b'0' + t / 60 % 10)
    ∷ (b'0' + t / 600 % 6)
    ∷ b':'
    ∷ (b'0' + t / 3600 % 10)
    ∷ (b'0' + t / 36000)
    ∷ z
    ∷ date

pub same_clock :
    (u z : ℕ) (date : List ℕ) {a b c d e f : ℕ}
    → (a ≡ b'0' + u % 10)
      × (b ≡ b'0' + u / 10 % 6)
      × (c ≡ b'0' + u / 60 % 10)
      × (d ≡ b'0' + u / 600 % 6)
      × (e ≡ b'0' + u / 3600 % 10)
      × (f ≡ b'0' + u / 36000)
    → a ∷ b ∷ b':' ∷ c ∷ d ∷ b':' ∷ e ∷ f ∷ z ∷ date ≡ clock u z date
same_clock u z date h = cc (h.0, h.1, h.2, h.3, h.4, h.5)

module _ (f : List ℕ → List ℕ) (t z : ℕ) (date : List ℕ) where
  -- the specification of what is left of the ladder
  abbrev pub next : List ℕ
  next = if ltb t 86399 then clock (t + 1) z date else f (clock 0 z date)

  hour_three-next :
      t < 86400 → t % 3600 ≡ 3599 → t / 3600 % 10 ≡ 3 → hour_three f (clock t z date) ≡ next
  unfolding hour_three
  hour_three-next h e q = elim (dec_lt t 86399) [
    | yes p ↦
        rw (lt→ltb t 86399 p, ne→== (b'0' + t / 36000) b'2' (omega arith))
          (same_clock (t + 1) z date (omega arith))
    | no p ↦ rw (le→ltb t 86399 (omega arith), eq→== (b'0' + t / 36000) b'2' (omega arith)) refl
  ]

  hour_nine-next :
      t < 86399
      → t % 3600 ≡ 3599
      → t / 3600 % 10 ≡ 9
      → hour_nine (clock t z date) ≡ clock (t + 1) z date
  unfolding hour_nine
  hour_nine-next h e q = elim (dec_lt (t / 36000) 1) [
    | yes p ↦
        rw (eq→== (b'0' + t / 36000) b'0' (omega arith)) (same_clock (t + 1) z date (omega arith))
    | no p ↦
        rw (ne→== (b'0' + t / 36000) b'0' (omega arith)) (same_clock (t + 1) z date (omega arith))
  ]

  increment_hour-next : t < 86400 → t % 3600 ≡ 3599 → increment_hour f (clock t z date) ≡ next
  unfolding increment_hour
  increment_hour-next h e = elim (ℕ_discrete (t / 3600 % 10) 3) [
    | yes p ↦ rw (eq→== (b'0' + t / 3600 % 10) b'3' (omega arith)) (hour_three-next h e p)
    | no p ↦
        rw (ne→== (b'0' + t / 3600 % 10) b'3' (omega arith), lt→ltb t 86399 (omega arith))
          (elim (dec_lt (t / 3600 % 10) 9) [
            | yes q ↦
                switch_text-some next_digit (clock t z date) 6 (codes ":00:00")
                  (hour_nine (clock t z date)) (next_digit-some (t / 3600 % 10) q)
                ∙ same_clock (t + 1) z date (omega arith)
            | no q ↦
                switch_text-none next_digit (clock t z date) 6 (codes ":00:00")
                  (hour_nine (clock t z date)) (next_digit-none (t / 3600 % 10) (omega arith))
                ∙ hour_nine-next (omega arith) e (omega arith)
          ])
  ]

  increment_minute-next : t < 86400 → t % 10 ≡ 9 → increment_minute f (clock t z date) ≡ next
  unfolding increment_minute
  increment_minute-next h e =
      let cells = clock t z date in
      let hour = increment_hour f cells in
      let tens = switch_text next_tens cells 4 (codes "0:00") hour in
      let ones = switch_text next_digit cells 3 (codes ":00") tens in
      elim (dec_lt (t / 10 % 6) 5) [
        | yes p ↦
            switch_text-some next_tens cells 1 (codes "0") ones (next_tens-some (t / 10 % 6) p)
            ∙ rw (lt→ltb t 86399 (omega arith)) (same_clock (t + 1) z date (omega arith))
        | no p ↦
            switch_text-none next_tens cells 1 (codes "0") ones
              (next_tens-none (t / 10 % 6) (omega arith))
            ∙ elim (dec_lt (t / 60 % 10) 9) [
              | yes q ↦
                  switch_text-some next_digit cells 3 (codes ":00") tens
                    (next_digit-some (t / 60 % 10) q)
                  ∙ rw (lt→ltb t 86399 (omega arith)) (same_clock (t + 1) z date (omega arith))
              | no q ↦
                  switch_text-none next_digit cells 3 (codes ":00") tens
                    (next_digit-none (t / 60 % 10) (omega arith))
                  ∙ elim (dec_lt (t / 600 % 6) 5) [
                    | yes r ↦
                        switch_text-some next_tens cells 4 (codes "0:00") hour
                          (next_tens-some (t / 600 % 6) r)
                        ∙ rw (lt→ltb t 86399 (omega arith))
                            (same_clock (t + 1) z date (omega arith))
                    | no r ↦
                        switch_text-none next_tens cells 4 (codes "0:00") hour
                          (next_tens-none (t / 600 % 6) (omega arith))
                        ∙ increment_hour-next h (omega arith)
                  ]
            ]
      ]

  -- the whole ladder, from the switch on the seconds on
  pub second_next :
      t < 86400
      → switch_text next_digit (clock t z date) 0 [] (increment_minute f (clock t z date)) ≡ next
  second_next h =
      let rest = increment_minute f (clock t z date) in
      elim (dec_lt (t % 10) 9) [
        | yes p ↦
            switch_text-some next_digit (clock t z date) 0 [] rest (next_digit-some (t % 10) p)
            ∙ rw (lt→ltb t 86399 (omega arith)) (same_clock (t + 1) z date (omega arith))
        | no p ↦
            switch_text-none next_digit (clock t z date) 0 [] rest
              (next_digit-none (t % 10) (omega arith))
            ∙ increment_minute-next h (omega arith)
      ]

-- Before the last second of the day `datetime_string_increment` moves the time of day on by a
-- second and leaves the date alone; in the last second it sets midnight and moves the date on.
pub datetime_string_increment-clock :
    (t z : ℕ) (date : List ℕ)
    → t < 86400
    → datetime_string_increment (clock t z date) ≡ (
        if ltb t 86399
        then clock (t + 1) z date
        else clock 0 z (increment_date increment_datetime_year date))
unfolding datetime_string_increment
datetime_string_increment-clock t z date =
    second_next (on_date (increment_date increment_datetime_year)) t z date
