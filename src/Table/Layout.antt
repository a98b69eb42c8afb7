-- ===== src/Table/Layout.antt =====
-- Where build_table_init puts the blocks of rows, and the size that it reckons.
use mysql_seed.Prelude.{
  ℕ, ◌+◌, ◌-◌, ◌*◌, ◌^◌, ◌≤◌, ◌<◌, ◌≡◌, refl, ap, ap₂, ◌∙◌, Bool, true, false, Option, none, some,
  List, [], ◌∷◌, map, arith, length, sum,
}
use mysql_seed.RowBlock.{Rowspan}
use mysql_seed.RowBlock.Text.{IsRows, rows_text}
use mysql_seed.RowBlock.Size.{rows_size, count_joined, rows_text-size}
use mysql_seed.Table.{
  Table, Block, table_size_contents, table_put_header, block_contents, build_table_init,
  table_header_base_size,
}
use mysql_seed.Table.Size.{
  add_size-small, sub_size-small, names_size, count_null, count_null-le, size_columns-sum,
  table_put_header-length,
}

-- the block of these rows, when all columns have added the bytes of their cells to its total
abbrev pub block_of : List (List (List ℕ)) → Block
block_of rows = record { total = rows_size rows; row_count = length rows }

-- running sums: where the parts of these lengths begin
abbrev pub starts : ℕ → List ℕ → List ℕ
starts p [] = []
starts p (n ∷ ns) = p ∷ starts (p + n) ns

abbrev pub is_null : Option (List ℕ) → Bool
is_null none = true
is_null (some _) = false

-- the columns that are joined are those without a name
abbrev pub IsJoined : List Rowspan → List (Option (List ℕ)) → Type 0
IsJoined [] [] = Unit
IsJoined [] (_ ∷ _) = ⊥
IsJoined (_ ∷ _) [] = ⊥
IsJoined (s ∷ spans) (name ∷ columns) = (s.join ≡ is_null name) × IsJoined spans columns

pub count_joined-null :
    (spans : List Rowspan) (columns : List (Option (List ℕ)))
    → IsJoined spans columns
    → count_joined spans ≡ count_null columns
count_joined-null [] [] h = refl
count_joined-null [] (c ∷ columns) h = absurd h
count_joined-null (s ∷ spans) [] h = absurd h
count_joined-null (s ∷ spans) (none ∷ columns) h =
    rw (h.0, count_joined-null spans columns h.1) refl
count_joined-null (s ∷ spans) (some name ∷ columns) h =
    rw (h.0, count_joined-null spans columns h.1) (omega arith)

abbrev pub AllRows : List (List (List (List ℕ))) → List Rowspan → Type 0
AllRows [] spans = Unit
AllRows (rows ∷ blocks) spans = IsRows rows spans × AllRows blocks spans

abbrev pub texts_lengths : List (List (List (List ℕ))) → List Rowspan → List ℕ
texts_lengths [] spans = []
texts_lengths (rows ∷ blocks) spans = length (rows_text rows spans) ∷ texts_lengths blocks spans

module _ (s : Rowspan) (spans : List Rowspan) where
  pub blocks_size :
      (blocks : List (List (List (List ℕ))))
      → AllRows blocks (s ∷ spans)
      → sum (texts_lengths blocks (s ∷ spans)) + count_joined spans * sum (map length blocks)
        ≡ sum (map rows_size blocks)
  blocks_size [] h = grind arith
  blocks_size (rows ∷ blocks) h =
      let a = rows_text-size rows s spans h.0 in let b = blocks_size blocks h.1 in grind arith

  pub block_contents-starts :
      (rows : List (List (List ℕ))) (blocks : List (List (List (List ℕ)))) (ptr : ℕ)
      → AllRows (rows ∷ blocks) (s ∷ spans)
      → ptr + sum (map rows_size (rows ∷ blocks)) < 2 ^ 64
      → block_contents (count_joined spans) ptr (block_of rows) (map block_of blocks)
        ≡ starts ptr (texts_lengths (rows ∷ blocks) (s ∷ spans))
  unfolding block_contents
  block_contents-starts rows [] ptr h l = refl
  block_contents-starts rows (next ∷ blocks) ptr h l =
      let size = rows_text-size rows s spans h.0 in
      let less : count_joined spans * length rows ≤ rows_size rows = omega (arith, size) in
      let step : rows_size rows - count_joined spans * length rows
          ≡ length (rows_text rows (s ∷ spans)) =
        omega (arith, size) in
      rw
        (
          sub_size-small (rows_size rows) (count_joined spans * length rows) less
              (omega (arith, l)),
          step,
          add_size-small ptr (length (rows_text rows (s ∷ spans))) (omega (arith, l, size)),
        )
        (ap (ptr ∷◌) (
          block_contents-starts next blocks (ptr + length (rows_text rows (s ∷ spans))) h.1
            (omega (arith, l, size))))

  size_contents-sum :
      (table : Table) (blocks : List (List (List (List ℕ))))
      → IsJoined spans table.other_columns
      → AllRows blocks (s ∷ spans)
      → table.total ≡ sum (map rows_size blocks)
      → table.row_count ≡ sum (map length blocks)
      → length (table_put_header table) + table.total < 2 ^ 64
      → length table.other_columns < 2 ^ 32
      → table_size_contents table ≡ (
        length (table_put_header table) + sum (texts_lengths blocks (s ∷ spans)),
        count_joined spans,
      )
  unfolding table_size_contents
  size_contents-sum table blocks j h t r l c =
      let header = table_put_header-length table in
      let joins = count_joined-null spans table.other_columns j in
      let few = count_null-le table.other_columns in
      let sum_of = blocks_size blocks h in
      let named =
        length table.path
        + length table.name
        + length table.database_name
        + table.total
        + length table.first_column in
      let columns =
        size_columns-sum table.other_columns (table_header_base_size + named) 0
          (omega (arith, header, l)) (omega (arith, few, c)) in
      let joined : (0 + count_null table.other_columns) * table.row_count
          ≡ count_joined spans * sum (map length blocks) =
        ap₂ ◌*◌ (omega (arith, joins)) r in
      let all = table_header_base_size + named + names_size table.other_columns in
      rw (add_size-small table_header_base_size named (omega (arith, header, l)), columns)
        (ap₂ (λ a b. (a, b))
          (sub_size-small all ((0 + count_null table.other_columns) * table.row_count)
              (omega (arith, joined, sum_of, t)) (omega (arith, header, l))
            ∙ omega (arith, joined, sum_of, t, header))
          (omega (arith, joins)))

-- If the joined columns are those without a name, the totals of the table and of its blocks are the
-- bytes of their cells with a NUL each and the row counts those of the blocks, and the sizes stay
-- below 2 ^ 64 and the columns below 2 ^ 32, then `build_table_init` asks for exactly the bytes of
-- the header and of the texts of all blocks (`rows_text`), and the contents of each block begin
-- where the text before it ends, the first at the end of the header.
pub build_table_init-starts :
    (table : Table) (s : Rowspan) (spans : List Rowspan) (rows : List (List (List ℕ)))
    (blocks : List (List (List (List ℕ))))
    → IsJoined spans table.other_columns
    → AllRows (rows ∷ blocks) (s ∷ spans)
    → table.total ≡ sum (map rows_size (rows ∷ blocks))
    → table.row_count ≡ sum (map length (rows ∷ blocks))
    → length (table_put_header table) + table.total < 2 ^ 64
    → length table.other_columns < 2 ^ 32
    → let lengths = texts_lengths (rows ∷ blocks) (s ∷ spans) in
      let header = table_put_header table in
      build_table_init table (block_of rows) (map block_of blocks)
      ≡ (length header + sum lengths, header, starts (length header) lengths)
unfolding build_table_init
build_table_init-starts table s spans rows blocks j h t r l c =
    rw (size_contents-sum s spans table (rows ∷ blocks) j h t r l c) (
      ap
        (λ p. (
          length (table_put_header table) + sum (texts_lengths (rows ∷ blocks) (s ∷ spans)),
          table_put_header table,
          p,
        ))
        (block_contents-starts s spans rows blocks (length (table_put_header table)) h
          (omega (arith, l, t))))
