-- ===== src/RowBlock/Size.antt =====
-- How many bytes the rows of a block are.
use mysql_seed.Prelude.{
  ℕ, ◌+◌, ◌*◌, ◌≡◌, refl, Bool, true, false, List, [], ◌∷◌, ◌++◌, arith, if◌then◌else◌, length,
  length-append,
}
use mysql_seed.RowBlock.{Rowspan, field_delim}
use mysql_seed.RowBlock.Fields.{IsRow, fields_text, row_text}
use mysql_seed.RowBlock.Text.{IsRows, rows_text}

-- the bytes of cells in the memory of their columns, each with its NUL
abbrev pub row_size : List (List ℕ) → ℕ
row_size [] = 0
row_size (t ∷ ts) = length t + 1 + row_size ts

abbrev pub rows_size : List (List (List ℕ)) → ℕ
rows_size [] = 0
rows_size (ts ∷ rows) = row_size ts + rows_size rows

abbrev pub count_joined : List Rowspan → ℕ
count_joined [] = 0
count_joined (s ∷ spans) = (if s.join then 1 else 0) + count_joined spans

field_size :
    (join : Bool) (t rest : List ℕ) (n j : ℕ)
    → length rest + j ≡ n
    → length ((if join then t else field_delim ∷ t) ++ rest) + ((if join then 1 else 0) + j)
      ≡ length t + 1 + n
field_size true t rest n j h = omega (arith, length-append t rest)
field_size false t rest n j h = omega (arith, length-append t rest)

fields_size :
    (ts : List (List ℕ)) (spans : List Rowspan)
    → IsRow ts spans
    → length (fields_text ts spans) + count_joined spans ≡ row_size ts
fields_size [] [] h = refl
fields_size [] (s ∷ spans) h = absurd h
fields_size (t ∷ ts) [] h = absurd h
fields_size (t ∷ ts) (s ∷ spans) h =
    field_size s.join t (fields_text ts spans) (row_size ts) (count_joined spans)
      (fields_size ts spans h.1)

row_text-size :
    (ts : List (List ℕ)) (s : Rowspan) (spans : List Rowspan)
    → IsRow ts (s ∷ spans)
    → length (row_text ts (s ∷ spans)) + count_joined spans ≡ row_size ts
row_text-size [] s spans h = absurd h
row_text-size (t ∷ ts) s spans h =
    omega (arith, length-append t (fields_text ts spans), fields_size ts spans h.1)

pub rows_text-size :
    (rows : List (List (List ℕ))) (s : Rowspan) (spans : List Rowspan)
    → IsRows rows (s ∷ spans)
    → length (rows_text rows (s ∷ spans)) + count_joined spans * length rows ≡ rows_size rows
rows_text-size [] s spans h = grind arith
rows_text-size (ts ∷ rows) s spans h =
    let a = row_text-size ts s spans h.0 in
    let b = rows_text-size rows s spans h.1 in
    let c = length-append (row_text ts (s ∷ spans)) (rows_text rows (s ∷ spans)) in grind arith
