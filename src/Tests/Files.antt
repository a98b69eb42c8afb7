-- ===== src/Tests/Files.antt =====
-- Rows and files of a small table.
use mysql_seed.Prelude.{
  ◌<◌, ne→==, ℕ, ◌+◌, ◌≡◌, refl, true, false, Option, none, some, List, [], ◌∷◌, ◌++◌, arith,
  length, codes,
}
use mysql_seed.Table.{sub_size}
use mysql_seed.Column.{
  Span, string_stop, put_copies, next_group, end_block, write_cells,
  build_column_u_integer_unique_group, build_column_integer_unique_group,
}
use mysql_seed.Column.Unique.{
  build_column_u_integer_unique, build_column_integer_unique, number_spans,
  build_column_u_integer_unique-numbers,
}
use mysql_seed.Counter.Size.{size_of_texts}
use mysql_seed.Counter.Fill.{Texts, built, counter_init_internals}
use mysql_seed.Column.Fixed.{
  build_column_string_fixed, build_column_integer_fixed, build_column_u_integer_fixed,
  build_column_datetime_fixed, build_column_timestamp_fixed, time_text,
}
use mysql_seed.Column.Fixed.Copies.{copied, fixed_columns-copied}
use mysql_seed.Column.Cells.{lay, cells_of}
use mysql_seed.Column.Texts.{build_column_string_unique}
use mysql_seed.Column.Texts.Lay.{build_column_string_unique-lay}
use mysql_seed.Column.Group.{build_column_u_integer_unique_group-lay}
use mysql_seed.RowBlock.{
  Rowspan, build_row_block, put_rows, put_row_block_row, copy_row_block_row, put_fields,
  copy_fields, put_rowspan_cell, put_string, put_delim,
}
use mysql_seed.RowBlock.Text.{prepend_rows, build_row_block-text}
use mysql_seed.Table.{
  Table, table_put_header, build_table_init, build_table_init_no_header, table_header_1,
  table_header_2, table_header_3, table_header_4, table_header_5, put_columns,
}
use mysql_seed.Table.Layout.{block_of, build_table_init-starts}
use mysql_seed.Table.NoHeader.{build_table_init_no_header-overflow}

-- a column with a name
abbrev plain : Rowspan
plain = record { cell = []; join = false }

-- a column that is joined to the one before
abbrev joined : Rowspan
joined = record { cell = []; join = true }

abbrev first_row : List (List ℕ)
first_row = codes "1" ∷ codes "id" ∷ codes "x" ∷ []

abbrev second_row : List (List ℕ)
second_row = codes "2" ∷ codes "id" ∷ codes "" ∷ []

abbrev third_row : List (List ℕ)
third_row = codes "13" ∷ codes "id" ∷ codes "yz" ∷ []

two_rows :
    build_row_block 2 (
      (record { cell = 49 ∷ 0 ∷ 50 ∷ 0 ∷ 51 ∷ 0 ∷ []; join = false })
      ∷ (record { cell = 105 ∷ 100 ∷ 0 ∷ 105 ∷ 0 ∷ []; join = true })
      ∷ (record { cell = 120 ∷ 0 ∷ 0 ∷ []; join = false })
      ∷ [])
    ≡ some (codes "\n1id,x\n2i,")
unfolding build_row_block put_rows put_row_block_row copy_row_block_row put_fields copy_fields
    put_rowspan_cell put_string put_delim
two_rows = refl

build_row_block-text_example :
    build_row_block 2 (prepend_rows (first_row ∷ second_row ∷ []) (plain ∷ joined ∷ plain ∷ []))
    ≡ some (codes "\n1id,x\n2id,")
build_row_block-text_example =
    build_row_block-text first_row (second_row ∷ []) plain (joined ∷ plain ∷ []) (omega arith)

abbrev people : Table
people = record {
  path = codes "database/town/people.csv";
  name = codes "people";
  database_name = codes "town";
  first_column = codes "name";
  other_columns = none ∷ some (codes "note") ∷ [];
  row_count = 3;
  total = 22;
}

header_size : length (table_put_header people) ≡ 564
unfolding table_put_header table_header_1 table_header_2 table_header_3 table_header_4
    table_header_5 put_columns
header_size = refl

build_table_init-starts_example :
    build_table_init people
      (block_of (third_row ∷ []))
      (block_of (first_row ∷ second_row ∷ []) ∷ [])
    ≡ (
      length (table_put_header people) + 19,
      table_put_header people,
      length (table_put_header people) ∷ (length (table_put_header people) + 8) ∷ [],
    )
build_table_init-starts_example =
    build_table_init-starts people plain (joined ∷ plain ∷ []) (third_row ∷ [])
      ((first_row ∷ second_row ∷ []) ∷ []) (refl, (refl, tt)) (omega arith) refl refl
      (omega (arith, header_size)) (omega arith)

build_table_init_no_header-overflow_example :
    let init =
      build_table_init_no_header people
        (block_of (third_row ∷ []))
        (block_of (first_row ∷ second_row ∷ []) ∷ []) in
    (init.1 ≡ 0 ∷ 8 ∷ []) × (init.0 + 1 ≡ 19)
build_table_init_no_header-overflow_example =
    build_table_init_no_header-overflow people plain (joined ∷ plain ∷ []) (third_row ∷ [])
      ((first_row ∷ second_row ∷ []) ∷ []) (refl, (refl, tt)) (omega arith) refl refl (omega arith)
      (omega arith) (omega arith)

-- the counter's texts of 1 to 9, with what stands behind them
abbrev digits : ℕ → List ℕ
digits i = (49 + i) ∷ 0 ∷ 7 ∷ []

abbrev digit_text : ℕ → List ℕ
digit_text i = (49 + i) ∷ 0 ∷ []

digits_stored : (i : ℕ) → i < 9 → string_stop (digits i) ≡ some (digit_text i)
unfolding string_stop
digits_stored i h = rw (ne→== (49 + i) 0 (omega arith)) refl

-- groups of 3 and 2 rows, in blocks of 1, 2 and 2 rows
grouped :
    build_column_u_integer_unique_group 4 digits 3 (2 ∷ []) 1 (2 ∷ 2 ∷ [])
    ≡ some (
      (record { cell = 0; size = 2 })
          ∷ (record { cell = 2; size = 4 })
          ∷ (record { cell = 6; size = 4 })
          ∷ [],
      49 ∷ 0 ∷ 49 ∷ 0 ∷ 49 ∷ 0 ∷ 50 ∷ 0 ∷ 50 ∷ 0 ∷ [],
    )
unfolding build_column_u_integer_unique_group write_cells next_group end_block put_copies
    string_stop sub_size
grouped = refl

build_column_u_integer_unique_group-lay_example :
    (spans : List Span) × (lay 1 0 [] (cells_of digit_text 0 (3 ∷ 2 ∷ [])) (2 ∷ 2 ∷ [])
      ≡ some (spans, 49 ∷ 0 ∷ 49 ∷ 0 ∷ 49 ∷ 0 ∷ 50 ∷ 0 ∷ 50 ∷ 0 ∷ []))
    × (build_column_u_integer_unique_group 4 digits 3 (2 ∷ []) 1 (2 ∷ 2 ∷ [])
        ≡ some (spans, 49 ∷ 0 ∷ 49 ∷ 0 ∷ 49 ∷ 0 ∷ 50 ∷ 0 ∷ 50 ∷ 0 ∷ []))
    × (build_column_integer_unique_group 4 digits 3 (2 ∷ []) 1 (2 ∷ 2 ∷ [])
        ≡ some (spans, 49 ∷ 0 ∷ 49 ∷ 0 ∷ 49 ∷ 0 ∷ 50 ∷ 0 ∷ 50 ∷ 0 ∷ []))
build_column_u_integer_unique_group-lay_example =
    build_column_u_integer_unique_group-lay digits digit_text 9 digits_stored 4 3 (2 ∷ []) 1
      (2 ∷ 2 ∷ []) refl (omega arith) (omega arith) (omega arith) (omega arith) refl (omega arith)

-- an allocator that always has memory
abbrev grant : ℕ → Option Texts
grant size = some (record { pointers = λ _. 0; digits = λ _. 0 })

build_column_u_integer_unique-numbers_example :
    (counter : Texts) × (counter_init_internals grant 12 ≡ built counter)
    × (build_column_u_integer_unique counter 3 (4 ∷ 4 ∷ [])
        ≡ (number_spans 0 (3 ∷ 4 ∷ 4 ∷ []), size_of_texts 11))
    × (build_column_integer_unique counter 3 (4 ∷ 4 ∷ [])
        ≡ (number_spans 0 (3 ∷ 4 ∷ 4 ∷ []), size_of_texts 11))
build_column_u_integer_unique-numbers_example =
    build_column_u_integer_unique-numbers grant 12 (record { pointers = λ _. 0; digits = λ _. 0 }) 3
      (4 ∷ 4 ∷ []) (omega arith) (omega arith) refl (omega arith)

abbrev word : List ℕ
word = codes "ab" ++ (0 ∷ [])

-- 2017-01-01 00:00:59, back to front
abbrev some_time : List ℕ
some_time = codes "95:00:00 10-10-7102"

word_copies : build_column_string_fixed 3 word 1 (2 ∷ []) ≡ copied word (1 ∷ 2 ∷ [])
unfolding build_column_string_fixed put_copies
word_copies = refl

fixed_columns-copied_example :
    (build_column_string_fixed 3 word 2 (3 ∷ []) ≡ copied word (2 ∷ 3 ∷ []))
    × (build_column_integer_fixed 3 word 2 (3 ∷ []) ≡ copied word (2 ∷ 3 ∷ []))
    × (build_column_u_integer_fixed 3 word 2 (3 ∷ []) ≡ copied word (2 ∷ 3 ∷ []))
    × (build_column_datetime_fixed some_time 2 (3 ∷ []) ≡ copied (time_text some_time) (2 ∷ 3 ∷ []))
    × (build_column_timestamp_fixed some_time 2 (3 ∷ [])
        ≡ copied (time_text some_time) (2 ∷ 3 ∷ []))
fixed_columns-copied_example =
    fixed_columns-copied word some_time 2 (3 ∷ []) (omega arith) refl (omega arith, omega arith)

build_column_string_unique-lay_example :
    (spans : List Span) × (lay 1 0 []
        ((codes "a1" ++ 0 ∷ []) ∷ (codes "a2" ++ 0 ∷ []) ∷ (codes "a3" ++ 0 ∷ []) ∷ [])
        (2 ∷ [])
      ≡ some (spans, codes "a1" ++ 0 ∷ codes "a2" ++ 0 ∷ codes "a3" ++ 0 ∷ []))
    × (build_column_string_unique digits (codes "a") 1 (2 ∷ [])
        ≡ some (spans, codes "a1" ++ 0 ∷ codes "a2" ++ 0 ∷ codes "a3" ++ 0 ∷ []))
build_column_string_unique-lay_example =
    build_column_string_unique-lay digits digit_text (codes "a") 9 digits_stored 1 (2 ∷ [])
      (omega arith, omega arith) (omega arith)
