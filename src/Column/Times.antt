-- ===== src/Column/Times.antt =====
-- The columns that count the time up (build_column_datetime_unique of generate/column_datetime.c and
-- build_column_timestamp_unique of generate/column_timestamp.c), as those of `Column.Fixed`: `string`
-- is the buffer, back to front, and the loop over the rows runs on fuel, one turn for each row.
pub mod Series
use mysql_seed.Prelude.{
  ℕ, zero, suc, ◌+◌, ◌-◌, ◌*◌, Option, none, some, ◌>>=◌, List, [], ◌∷◌, ◌++◌, ◌==◌, if◌then◌else◌,
  length,
}
use mysql_seed.Column.{Span}
use mysql_seed.Column.Fixed.{size_time_string, time_text}
use mysql_seed.TimeString.{datetime_string_increment}
use mysql_seed.TimeString.Timestamp.{timestamp_string_increment}

-- The loop of a block: the string is not incremented behind the last row.
unfoldable pub put_times :
    ℕ
    → (increment : List ℕ → List ℕ) (string out : List ℕ) (contents_until : ℕ)
    → Option (List ℕ × List ℕ)
put_times zero increment string out contents_until = none
put_times (suc fuel) increment string out contents_until =
    let out' = out ++ time_text string in
    let more = put_times fuel increment (increment string) out' contents_until in
    if length out' == contents_until then some (string, out') else more

unfoldable pub put_times_blocks :
    (increment : List ℕ → List ℕ) (string out : List ℕ) (rows : ℕ) (blocks : List ℕ)
    → Option (List Span × List ℕ)
unfolding put_times
put_times_blocks increment string out rows [] = do
  w ← put_times rows increment string out (length out + size_time_string * rows)
  some ((record { cell = length out; size = length w.1 - length out }) ∷ [], w.1)
put_times_blocks increment string out rows (rows' ∷ blocks) = do
  w ← put_times rows increment string out (length out + size_time_string * rows)
  r ← put_times_blocks increment w.0 w.1 rows' blocks
  some ((record { cell = length out; size = length w.1 - length out }) ∷ r.0, r.1)

unfoldable pub build_column_datetime_unique :
    (string : List ℕ) (rows : ℕ) (blocks : List ℕ) → Option (List Span × List ℕ)
unfolding put_times_blocks
build_column_datetime_unique string rows blocks =
    put_times_blocks datetime_string_increment string [] rows blocks

unfoldable pub build_column_timestamp_unique :
    (string : List ℕ) (rows : ℕ) (blocks : List ℕ) → Option (List Span × List ℕ)
unfolding put_times_blocks
build_column_timestamp_unique string rows blocks =
    put_times_blocks timestamp_string_increment string [] rows blocks
