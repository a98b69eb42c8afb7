-- ===== src/Column/Fixed.antt =====
-- The columns that write one text into each cell
-- (generate/column_string.c, column_integer.c, column_u_integer.c, column_datetime.c,
-- column_timestamp.c). The text written so far, from `column->contents` on, is the list `out`, whose
-- end is `ptr`; the memory is granted. A do loop runs on fuel, one turn for each row.
pub mod Copies
use mysql_seed.Prelude.{
  ℕ, zero, suc, ◌+◌, ◌-◌, ◌*◌, Option, none, some, ◌>>=◌, List, [], ◌∷◌, ◌++◌, ltb, ◌==◌,
  if◌then◌else◌, length,
}
use mysql_seed.Column.{Span}
use mysql_seed.Decimal.Parse.Scan.{turn}

-- do { put the text } while (ptr < contents_until)
unfoldable pub put_block :
    ℕ → (text : List ℕ) → (out : List ℕ) → (contents_until : ℕ) → Option (List ℕ)
put_block zero text out contents_until = none
put_block (suc fuel) text out contents_until =
    let out' = out ++ text in
    let more = put_block fuel text out' contents_until in
    if ltb (length out') contents_until then more else some out'

-- The loop over the blocks of rows, from the one of `rows` rows on, for a builder of the length or
-- width `width` whose closure puts `text`: what the column adds to each block, and the contents.
unfoldable pub put_blocks :
    (width : ℕ) (text : List ℕ) (out : List ℕ) (rows : ℕ) (blocks : List ℕ)
    → Option (List Span × List ℕ)
unfolding put_block
put_blocks width text out rows [] = do
  out' ← put_block rows text out (length out + width * rows)
  some ((record { cell = length out; size = width * rows }) ∷ [], out')
put_blocks width text out rows (rows' ∷ blocks) = do
  out' ← put_block rows text out (length out + width * rows)
  r ← put_blocks width text out' rows' blocks
  some ((record { cell = length out; size = width * rows }) ∷ r.0, r.1)

unfoldable pub build_column_string_fixed :
    (width : ℕ) (text : List ℕ) (rows : ℕ) (blocks : List ℕ) → Option (List Span × List ℕ)
unfolding put_blocks
build_column_string_fixed width text rows blocks = put_blocks width text [] rows blocks

unfoldable pub build_column_integer_fixed :
    (width : ℕ) (text : List ℕ) (rows : ℕ) (blocks : List ℕ) → Option (List Span × List ℕ)
unfolding put_blocks
build_column_integer_fixed width text rows blocks = put_blocks width text [] rows blocks

unfoldable pub build_column_u_integer_fixed :
    (width : ℕ) (text : List ℕ) (rows : ℕ) (blocks : List ℕ) → Option (List Span × List ℕ)
unfolding put_blocks
build_column_u_integer_fixed width text rows blocks = put_blocks width text [] rows blocks

-- sizeof(string), which is SIZE_DATETIME_STRING and SIZE_TIMESTAMP_STRING
abbrev pub size_time_string : ℕ
size_time_string = 20

-- a string of a time, with its NUL, from its bytes back to front
abbrev pub time_text : List ℕ → List ℕ
time_text string = turn string (0 ∷ [])

-- The loop of the two time columns, which add to a block what they have written.
unfoldable pub put_time_blocks :
    (text : List ℕ) (out : List ℕ) (rows : ℕ) (blocks : List ℕ) → Option (List Span × List ℕ)
unfolding put_block
put_time_blocks text out rows [] = do
  out' ← put_block rows text out (length out + size_time_string * rows)
  some ((record { cell = length out; size = length out' - length out }) ∷ [], out')
put_time_blocks text out rows (rows' ∷ blocks) = do
  out' ← put_block rows text out (length out + size_time_string * rows)
  r ← put_time_blocks text out' rows' blocks
  some ((record { cell = length out; size = length out' - length out }) ∷ r.0, r.1)

-- `string` is what datetime_string_init has written, back to front.
unfoldable pub build_column_datetime_fixed :
    (string : List ℕ) (rows : ℕ) (blocks : List ℕ) → Option (List Span × List ℕ)
unfolding put_time_blocks
build_column_datetime_fixed string rows blocks = put_time_blocks (time_text string) [] rows blocks

unfoldable pub build_column_timestamp_fixed :
    (string : List ℕ) (rows : ℕ) (blocks : List ℕ) → Option (List Span × List ℕ)
unfolding put_time_blocks
build_column_timestamp_fixed string rows blocks = put_time_blocks (time_text string) [] rows blocks
