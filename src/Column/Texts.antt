-- ===== src/Column/Texts.antt =====
-- build_column_string_unique of generate/column_string.c: each cell is the base string of the column
-- and a text of the counter. As in `Column`, a pointer of the counter is an index, and the text
-- written so far is `out`. The loop over the rows runs on fuel, one turn for each row.
pub mod Lay
use mysql_seed.Prelude.{
  ℕ, zero, suc, ◌+◌, ◌-◌, Option, none, some, ◌>>=◌, List, [], ◌∷◌, ◌++◌, ltb, if◌then◌else◌,
  length,
}
use mysql_seed.Column.{Span, string_stop}

unfoldable pub put_counted :
    ℕ
    → (counter : ℕ → List ℕ) (base : List ℕ) (count_ptr count_until : ℕ) (out : List ℕ)
    → Option (ℕ × List ℕ)
put_counted zero counter base count_ptr count_until out = none
put_counted (suc fuel) counter base count_ptr count_until out =
    string_stop (counter count_ptr) >>= λ text.
    let out' = (out ++ base) ++ text in
    let more = put_counted fuel counter base (suc count_ptr) count_until out' in
    if ltb (suc count_ptr) count_until then more else some (suc count_ptr, out')

unfoldable pub put_counted_blocks :
    (counter : ℕ → List ℕ) (base : List ℕ) (count_ptr : ℕ) (out : List ℕ) (rows : ℕ)
    (blocks : List ℕ)
    → Option (List Span × List ℕ)
unfolding put_counted
put_counted_blocks counter base count_ptr out rows [] = do
  w ← put_counted rows counter base count_ptr (count_ptr + rows) out
  some ((record { cell = length out; size = length w.1 - length out }) ∷ [], w.1)
put_counted_blocks counter base count_ptr out rows (rows' ∷ blocks) = do
  w ← put_counted rows counter base count_ptr (count_ptr + rows) out
  r ← put_counted_blocks counter base w.0 w.1 rows' blocks
  some ((record { cell = length out; size = length w.1 - length out }) ∷ r.0, r.1)

-- `base` is what the closure of the base string puts.
unfoldable pub build_column_string_unique :
    (counter : ℕ → List ℕ) (base : List ℕ) (rows : ℕ) (blocks : List ℕ)
    → Option (List Span × List ℕ)
unfolding put_counted_blocks
build_column_string_unique counter base rows blocks =
    put_counted_blocks counter base 0 [] rows blocks
