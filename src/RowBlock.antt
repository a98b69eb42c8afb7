-- ===== src/RowBlock.antt =====
-- generate/row_block.h and row_block.c: the text of a block of rows from the cells of its columns. A
-- pointer into the memory of a column is the list of the bytes from there on; the bytes that were
-- written from `row_block->contents` on are the list `out`, whose end is `ptr`. A read behind the memory
-- of a column gives none.
pub mod Fields
pub mod Text
pub mod Size
use mysql_seed.Prelude.{
  ℕ, zero, suc, Bool, Option, none, some, List, [], ◌∷◌, ◌++◌, ◌>>=◌, ◌==◌, if◌then◌else◌,
}

-- what a worker reads of `struct Rowspan`
pub record Rowspan : Type 0 where
  pub cell : List ℕ
  pub join : Bool

abbrev pub field_delim : ℕ
field_delim = b','

abbrev pub newline : ℕ
newline = b'\n'

-- the text up to the NUL, and the cell behind it
unfoldable pub put_rowspan_cell : List ℕ → List ℕ → Option (List ℕ × List ℕ)
put_rowspan_cell out [] = none
put_rowspan_cell out (c ∷ cell) =
    let rest = put_rowspan_cell (out ++ c ∷ []) cell in if c == 0 then some (out, cell) else rest

-- copy_string is the same loop, and returns nothing
unfoldable pub put_string : List ℕ → List ℕ → Option (List ℕ)
put_string out [] = none
put_string out (c ∷ string) =
    let rest = put_string (out ++ c ∷ []) string in if c == 0 then some out else rest

unfoldable pub put_delim : Bool → List ℕ → List ℕ
put_delim join out = if join then out else out ++ field_delim ∷ []

-- the loop of put_row_block_row
unfoldable pub put_fields : List ℕ → List Rowspan → Option (List ℕ × List Rowspan)
put_fields out [] = some (out, [])
put_fields out (s ∷ spans) = do
  (out', cell) ← put_rowspan_cell (put_delim s.join out) s.cell
  (out'', spans') ← put_fields out' spans
  some (out'', record s { cell = cell } ∷ spans')

-- A row block has at least one rowspan.
unfoldable pub put_row_block_row : List ℕ → List Rowspan → Option (List ℕ × List Rowspan)
put_row_block_row out [] = none
put_row_block_row out (s ∷ spans) = do
  (out', cell) ← put_rowspan_cell (out ++ newline ∷ []) s.cell
  (out'', spans') ← put_fields out' spans
  some (out'', record s { cell = cell } ∷ spans')

-- the loop of copy_row_block_row from a rowspan on, with the last one behind it
unfoldable pub copy_fields : List ℕ → Rowspan → List Rowspan → Option (List ℕ)
copy_fields out s [] = put_string out s.cell
copy_fields out s (next ∷ spans) = do
  out' ← put_string out s.cell
  copy_fields (put_delim next.join out') next spans

unfoldable pub copy_row_block_row : List ℕ → List Rowspan → Option (List ℕ)
copy_row_block_row out [] = none
copy_row_block_row out (s ∷ spans) = copy_fields (out ++ newline ∷ []) s spans

-- the loop of build_row_block with `rem_rows` to go, and the row behind it
unfoldable pub put_rows : ℕ → List ℕ → List Rowspan → Option (List ℕ)
put_rows zero out spans = copy_row_block_row out spans
put_rows (suc zero) out spans = copy_row_block_row out spans
put_rows (suc (suc rem_rows)) out spans = do
  (out', spans') ← put_row_block_row out spans
  put_rows (suc rem_rows) out' spans'

unfoldable pub build_row_block : ℕ → List Rowspan → Option (List ℕ)
build_row_block row_count spans = put_rows row_count [] spans
