-- ===== src/RowBlock/Text.antt =====
-- All rows of a block, and how many bytes they are.
use mathlib.Core.List.{append_assoc, append-nil}
use mysql_seed.Prelude.{
  ℕ, ◌≡◌, refl, sym, ap, ◌∙◌, some, List, [], ◌∷◌, ◌++◌, if◌then◌else◌, length,
}
use mysql_seed.RowBlock.{Rowspan, field_delim, newline, put_rows, build_row_block}
use mysql_seed.RowBlock.Fields.{
  IsRow, prepend, fields_text, row_text, put_row_block_row-prepend, copy_row_block_row-prepend,
}

abbrev pub IsRows : List (List (List ℕ)) → List Rowspan → Type 0
IsRows [] spans = Unit
IsRows (ts ∷ rows) spans = IsRow ts spans × IsRows rows spans

-- the memory of the columns: the cells of the rows of the block, each with its NUL, and what follows
abbrev pub prepend_rows : List (List (List ℕ)) → List Rowspan → List Rowspan
prepend_rows [] spans = spans
prepend_rows (ts ∷ rows) spans = prepend ts (prepend_rows rows spans)

abbrev pub rows_text : List (List (List ℕ)) → List Rowspan → List ℕ
rows_text [] spans = []
rows_text (ts ∷ rows) spans = row_text ts spans ++ rows_text rows spans

fields_text-prepend :
    (ts us : List (List ℕ)) (spans : List Rowspan)
    → IsRow us spans
    → fields_text ts (prepend us spans) ≡ fields_text ts spans
fields_text-prepend [] us spans h = refl
fields_text-prepend (t ∷ ts) [] [] h = refl
fields_text-prepend (t ∷ ts) [] (s ∷ spans) h = absurd h
fields_text-prepend (t ∷ ts) (u ∷ us) [] h = absurd h
fields_text-prepend (t ∷ ts) (u ∷ us) (s ∷ spans) h =
    ap ((if s.join then t else field_delim ∷ t) ++◌) (fields_text-prepend ts us spans h.1)

IsRow-prepend :
    (ts us : List (List ℕ)) (spans : List Rowspan)
    → IsRow ts spans
    → IsRow us spans
    → IsRow ts (prepend us spans)
IsRow-prepend [] [] [] h k = h
IsRow-prepend [] us (s ∷ spans) h k = absurd h
IsRow-prepend [] (u ∷ us) [] h k = absurd k
IsRow-prepend (t ∷ ts) us [] h k = absurd h
IsRow-prepend (t ∷ ts) [] (s ∷ spans) h k = absurd k
IsRow-prepend (t ∷ ts) (u ∷ us) (s ∷ spans) h k = (h.0, IsRow-prepend ts us spans h.1 k.1)

row_text-prepend :
    (ts us : List (List ℕ)) (spans : List Rowspan)
    → IsRow us spans
    → row_text ts (prepend us spans) ≡ row_text ts spans
row_text-prepend [] us spans h = refl
row_text-prepend (t ∷ ts) [] [] h = refl
row_text-prepend (t ∷ ts) [] (s ∷ spans) h = absurd h
row_text-prepend (t ∷ ts) (u ∷ us) [] h = absurd h
row_text-prepend (t ∷ ts) (u ∷ us) (s ∷ spans) h =
    ap (λ f. newline ∷ t ++ f) (fields_text-prepend ts us spans h.1)

row_text-prepend_rows :
    (ts : List (List ℕ)) (rows : List (List (List ℕ))) (spans : List Rowspan)
    → IsRows rows spans
    → IsRow ts spans
    → (row_text ts (prepend_rows rows spans) ≡ row_text ts spans)
      × IsRow ts (prepend_rows rows spans)
row_text-prepend_rows ts [] spans h k = (refl, k)
row_text-prepend_rows ts (us ∷ rows) spans h k =
    let more = row_text-prepend_rows ts rows spans h.1 k in
    let below = row_text-prepend_rows us rows spans h.1 h.0 in
    (
      row_text-prepend ts us (prepend_rows rows spans) below.1 ∙ more.0,
      IsRow-prepend ts us (prepend_rows rows spans) more.1 below.1,
    )

put_rows-text :
    (ts : List (List ℕ)) (rows : List (List (List ℕ))) (out : List ℕ) (s : Rowspan)
    (spans : List Rowspan)
    → IsRows (ts ∷ rows) (s ∷ spans)
    → put_rows (length (ts ∷ rows)) out (prepend_rows (ts ∷ rows) (s ∷ spans))
      ≡ some (out ++ rows_text (ts ∷ rows) (s ∷ spans))
unfolding put_rows
put_rows-text [] rows out s spans h = absurd h.0
put_rows-text (t ∷ ts) [] out s spans h =
    copy_row_block_row-prepend t ts out (s ∷ spans) h.0
    ∙ ap (λ o. some (out ++ o)) (sym (append-nil (row_text (t ∷ ts) (s ∷ spans))))
put_rows-text (t ∷ ts) (us ∷ rows) out s spans h =
    let below = row_text-prepend_rows (t ∷ ts) (us ∷ rows) (s ∷ spans) h.1 h.0 in
    rw (put_row_block_row-prepend t ts out (prepend_rows (us ∷ rows) (s ∷ spans)) below.1, below.0)
      (put_rows-text us rows (out ++ row_text (t ∷ ts) (s ∷ spans)) s spans h.1
        ∙ ap some
            (append_assoc out (row_text (t ∷ ts) (s ∷ spans)) (rows_text (us ∷ rows) (s ∷ spans))))

-- If the memory of each column has, one after the other, the texts of its cells without a NUL in
-- them and a NUL behind each, for at least one row and one column, then `build_row_block` writes
-- the rows in their order: for each a newline, the first cell, and each further cell behind a
-- delimiter unless its column is joined to the one before (`rows_text`); what follows in the memory
-- does not matter.
pub build_row_block-text :
    (ts : List (List ℕ)) (rows : List (List (List ℕ))) (s : Rowspan) (spans : List Rowspan)
    → IsRows (ts ∷ rows) (s ∷ spans)
    → build_row_block (length (ts ∷ rows)) (prepend_rows (ts ∷ rows) (s ∷ spans))
      ≡ some (rows_text (ts ∷ rows) (s ∷ spans))
unfolding build_row_block
build_row_block-text ts rows s spans h = put_rows-text ts rows [] s spans h
