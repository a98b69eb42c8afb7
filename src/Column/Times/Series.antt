-- ===== src/Column/Times/Series.antt =====
-- The times of a column that counts the time up, block by block.
use mysql_seed.Prelude.{
  ℕ, zero, suc, ◌+◌, ◌-◌, ◌*◌, ◌≤◌, ◌<◌, ◌≡◌, ◌≢◌, refl, ap, ◌∙◌, some, List, [], ◌∷◌, ◌++◌, arith,
  lt→ltb, eq→==, ne→==, length, length-append, sum, inl,
}
use mysql_seed.Column.Fixed.{size_time_string, time_text}
use mysql_seed.Column.Fixed.Copies.{even_spans, Positive}
use mysql_seed.Column.Times.{
  put_times, put_times_blocks, build_column_datetime_unique, build_column_timestamp_unique,
}
use mysql_seed.Decimal.Parse.Scan.{length-turn}
use mysql_seed.Time.Leap.{gregorian}
use mysql_seed.TimeString.{datetime_string_increment}
use mysql_seed.TimeString.Calendar.{OnCalendar}
use mysql_seed.TimeString.Timestamp.{timestamp_string_increment, timestamp_string_increment-next}
use mysql_seed.TimeString.Datetime.{datetime_text, datetime_string_increment-next}

-- the texts of `n` seconds from the `k`th on, behind `out`
abbrev pub put_seconds : (text : ℕ → List ℕ) (n k : ℕ) (out : List ℕ) → List ℕ
put_seconds text zero k out = out
put_seconds text (suc n) k out = put_seconds text n (suc k) (out ++ time_text (text k))

-- Those of the blocks: a block starts with the second of the last row before it.
abbrev pub put_second_blocks : (text : ℕ → List ℕ) (blocks : List ℕ) (k : ℕ) (out : List ℕ) → List ℕ
put_second_blocks text [] k out = out
put_second_blocks text (rows ∷ blocks) k out =
    put_second_blocks text blocks (k + (rows - 1)) (put_seconds text rows k out)

module _ (increment : List ℕ → List ℕ) (text : ℕ → List ℕ) (limit : ℕ)
    (sized : (k : ℕ) → k < limit → length (text k) ≡ 19)
    (next : (k : ℕ) → suc k < limit → increment (text k) ≡ text (suc k)) where
  length-one_more :
      (k : ℕ) (out : List ℕ)
      → k < limit
      → length (out ++ time_text (text k)) ≡ length out + size_time_string
  length-one_more k out h =
      omega
        (arith, length-append out (time_text (text k)), length-turn (text k) (0 ∷ []), sized k h)

  length-put_seconds :
      (n k : ℕ) (out : List ℕ)
      → k + n ≤ limit
      → length (put_seconds text n k out) ≡ length out + size_time_string * n
  length-put_seconds zero k out h = omega arith
  length-put_seconds (suc n) k out h = omega (
    arith,
    length-put_seconds n (suc k) (out ++ time_text (text k)) (omega arith),
    length-one_more k out (omega arith),
  )

  put_times-seconds :
      (n k : ℕ) (out : List ℕ) (until : ℕ)
      → k + n < limit
      → until ≡ length out + size_time_string * suc n
      → put_times (suc n) increment (text k) out until
        ≡ some (text (k + n), put_seconds text (suc n) k out)
  unfolding put_times
  put_times-seconds zero k out until h e =
      let l = length-one_more k out (omega arith) in
      let here : k + 0 ≡ k = omega arith in
      rw (eq→== (length (out ++ time_text (text k))) until (omega (arith, l, e)), here) refl
  put_times-seconds (suc n) k out until h e =
      let l = length-one_more k out (omega arith) in
      let differs : length (out ++ time_text (text k)) ≢ until = omega (arith, l, e) in
      let further : k + suc n ≡ suc k + n = omega arith in
      rw (ne→== (length (out ++ time_text (text k))) until differs, next k (omega arith), further)
        (put_times-seconds n (suc k) (out ++ time_text (text k)) until (omega arith)
          (omega (arith, l, e)))

  put_times_blocks-seconds :
      (k : ℕ) (out : List ℕ) (rows : ℕ) (blocks : List ℕ)
      → Positive (rows ∷ blocks)
      → k + sum (rows ∷ blocks) ≤ limit
      → put_times_blocks increment (text k) out rows blocks
        ≡ some (
          even_spans size_time_string (length out) (rows ∷ blocks),
          put_second_blocks text (rows ∷ blocks) k out,
        )
  unfolding put_times_blocks
  put_times_blocks-seconds k out zero blocks (q, qs) h = absurd (omega arith)
  put_times_blocks-seconds k out (suc n) [] q h =
      let l = length-put_seconds (suc n) k out (omega arith) in
      let size : length (put_seconds text (suc n) k out) - length out ≡ size_time_string * suc n =
        omega (arith, l) in
      rw (put_times-seconds n k out _ (omega arith) refl) (
        ap (λ z. some (record { cell = length out; size = z } ∷ [], put_seconds text (suc n) k out))
          size)
  put_times_blocks-seconds k out (suc n) (rows' ∷ blocks) (q, qs) h =
      let out' = put_seconds text (suc n) k out in
      let l = length-put_seconds (suc n) k out (omega arith) in
      let size : length out' - length out ≡ size_time_string * suc n = omega (arith, l) in
      let last : suc n - 1 ≡ n = omega arith in
      rw
        (
          put_times-seconds n k out _ (omega arith) refl,
          put_times_blocks-seconds (k + n) out' rows' blocks qs (omega arith),
          size,
          l,
          last,
        )
        refl

-- Let the column's DATETIME start at a second of a day of the Gregorian calendar up to the year
-- 9999 that is on no day of the two irregular kinds (`OnCalendar`), with as many seconds left in
-- the day as the table has rows, and let each block have at least one row. Then
-- `build_column_datetime_unique` gives the blocks spans of 20 bytes for each row, one behind the
-- other, and within a block each row has the second after that of the row before; but each block
-- behind the first starts with the same second as the last row of the block before.
pub build_column_datetime_unique-seconds :
    (y m d t : ℕ) (rows : ℕ) (blocks : List ℕ)
    → y ≤ 9999
    → OnCalendar (gregorian y) m d
    → Positive (rows ∷ blocks)
    → t + sum (rows ∷ blocks) ≤ 86400
    → build_column_datetime_unique (datetime_text y m d t) rows blocks
      ≡ some (
        even_spans size_time_string 0 (rows ∷ blocks),
        put_second_blocks (datetime_text y m d) (rows ∷ blocks) t [],
      )
unfolding build_column_datetime_unique
build_column_datetime_unique-seconds y m d t rows blocks hy r p h =
    put_times_blocks-seconds datetime_string_increment (datetime_text y m d) 86400 (λ k q. refl)
      (λ k q.
        datetime_string_increment-next y m d k hy r (omega arith)
        ∙ rw (lt→ltb k 86399 (omega arith)) (ap (datetime_text y m d) (omega arith)))
      t [] rows blocks p h

-- The same of `build_column_timestamp_unique` for the years from 1000 to 2037.
build_column_timestamp_unique-seconds :
    (y m d t : ℕ) (rows : ℕ) (blocks : List ℕ)
    → 1000 ≤ y
    → y < 2038
    → OnCalendar (gregorian y) m d
    → Positive (rows ∷ blocks)
    → t + sum (rows ∷ blocks) ≤ 86400
    → build_column_timestamp_unique (datetime_text y m d t) rows blocks
      ≡ some (
        even_spans size_time_string 0 (rows ∷ blocks),
        put_second_blocks (datetime_text y m d) (rows ∷ blocks) t [],
      )
unfolding build_column_timestamp_unique
build_column_timestamp_unique-seconds y m d t rows blocks low hy r p h =
    put_times_blocks-seconds timestamp_string_increment (datetime_text y m d) 86400 (λ k q. refl)
      (λ k q.
        timestamp_string_increment-next y m d k low (omega arith) r (omega arith)
          (inl (omega arith))
        ∙ rw (lt→ltb k 86399 (omega arith)) (ap (datetime_text y m d) (omega arith)))
      t [] rows blocks p h
