-- ===== src/Table/NoHeader.antt =====
-- build_table_init_no_header, which nothing in the program calls.
use mysql_seed.Prelude.{
  ℕ, ◌+◌, ◌*◌, ◌%◌, ◌^◌, ◌<◌, ◌≡◌, ap, ◌∙◌, Option, none, some, List, [], ◌∷◌, map, arith, length,
  sum,
}
use mysql_seed.RowBlock.{Rowspan}
use mysql_seed.RowBlock.Size.{rows_size, count_joined}
use mysql_seed.Table.{
  Table, count_columns, build_table_init_no_header, table_size_contents_no_header,
}
use mysql_seed.Table.Size.{sub_size-small, count_null, count_null-le}
use mysql_seed.Table.Layout.{
  block_of, starts, IsJoined, AllRows, texts_lengths, count_joined-null, blocks_size,
  block_contents-starts,
}

count_columns-sum :
    (columns : List (Option (List ℕ))) (joins : ℕ)
    → joins + count_null columns < 2 ^ 32
    → count_columns columns joins ≡ joins + count_null columns
unfolding count_columns
count_columns-sum [] joins h = omega arith
count_columns-sum (none ∷ columns) joins h =
    let e : (joins + 1) % 2 ^ 32 ≡ joins + 1 = omega arith in
    rw e (count_columns-sum columns (joins + 1) (omega arith) ∙ omega arith)
count_columns-sum (some name ∷ columns) joins h = count_columns-sum columns joins h

-- Under the conditions of a table with a header, and if the texts of the blocks are not all empty,
-- `build_table_init_no_header` lays the texts of the blocks out from the first byte on, one behind
-- the other, and asks for one byte less than they have.
pub build_table_init_no_header-overflow :
    (table : Table) (s : Rowspan) (spans : List Rowspan) (rows : List (List (List ℕ)))
    (blocks : List (List (List (List ℕ))))
    → IsJoined spans table.other_columns
    → AllRows (rows ∷ blocks) (s ∷ spans)
    → table.total ≡ sum (map rows_size (rows ∷ blocks))
    → table.row_count ≡ sum (map length (rows ∷ blocks))
    → table.total < 2 ^ 64
    → length table.other_columns < 2 ^ 32
    → 0 < sum (texts_lengths (rows ∷ blocks) (s ∷ spans))
    → let lengths = texts_lengths (rows ∷ blocks) (s ∷ spans) in
      let init = build_table_init_no_header table (block_of rows) (map block_of blocks) in
      (init.1 ≡ starts 0 lengths) × (init.0 + 1 ≡ sum lengths)
unfolding build_table_init_no_header table_size_contents_no_header
build_table_init_no_header-overflow table s spans rows blocks j h t r l c p =
    let joins = count_joined-null spans table.other_columns j in
    let few = count_null-le table.other_columns in
    let sum_of = blocks_size s spans (rows ∷ blocks) h in
    let columns =
      count_columns-sum (some table.first_column ∷ table.other_columns) 0 (omega (arith, few, c)) in
    let count : count_columns (some table.first_column ∷ table.other_columns) 0
        ≡ count_joined spans =
      columns ∙ omega (arith, joins) in
    let joined : count_joined spans * table.row_count
        ≡ count_joined spans * sum (map length (rows ∷ blocks)) =
      ap (count_joined spans *◌) r in
    rw count (
      block_contents-starts s spans rows blocks 0 h (omega (arith, l, t)),
      ap (λ n. n + 1)
            (sub_size-small table.total (count_joined spans * table.row_count + 1)
              (omega (arith, joined, sum_of, t, p)) l)
          ∙ omega (arith, joined, sum_of, t, p),
    )
