-- ===== src/Table.antt =====
-- generate/table.h and table.c: the header of a table's file, the size of the file, and where in it
-- the blocks of rows go. size_t has 64 bits and unsigned int has 32; a pointer into the file is its
-- distance from the first byte, and the text written so far is the list `out`.
pub mod Size
pub mod Layout
pub mod NoHeader
use mysql_seed.Prelude.{
  ℕ, zero, suc, ◌+◌, ◌-◌, ◌*◌, ◌%◌, ◌^◌, Option, none, some, List, [], ◌∷◌, ◌++◌, length, codes,
}
use mysql_seed.RowBlock.{field_delim}

unfoldable pub table_header_1 : List ℕ
table_header_1 = codes " 1) "

unfoldable pub table_header_2 : List ℕ
table_header_2 =
    codes "\n 2)\n 3) contains comma-separated ('\\'-escaped) seed data for table:\n 4)\n 5) \t"

unfoldable pub table_header_3 : List ℕ
table_header_3 = codes "\n 6)\n 7) in MySQL database:\n 8)\n 9) \t"

unfoldable pub table_header_4 : List ℕ
table_header_4 = codes "\n10)\n11) Row definition adheres to the syntax:\n12)\n13) "

-- `n` of the double lines of the box, each the three bytes of its character
abbrev pub double_lines : ℕ → List ℕ
double_lines zero = []
double_lines (suc n) = 226 ∷ 149 ∷ 144 ∷ double_lines n

unfoldable pub table_header_5 : List ℕ
table_header_5 =
    codes "<NEWLINE>\n14)\n15) "
    ++ (226 ∷ 149 ∷ 148 ∷ [])
    ++ double_lines 43
    ++ (226 ∷ 149 ∷ 151 ∷ [])
    ++ codes "\n16) "
    ++ (226 ∷ 149 ∷ 145 ∷ [])
    ++ codes " LINES 1 THROUGH 17 ARE IGNORED BY LOADER! "
    ++ (226 ∷ 149 ∷ 145 ∷ [])
    ++ codes "\n17) "
    ++ (226 ∷ 149 ∷ 154 ∷ [])
    ++ double_lines 43
    ++ (226 ∷ 149 ∷ 157 ∷ [])

-- sizeof counts the bytes of the five texts
unfoldable pub table_header_base_size : ℕ
table_header_base_size =
    length table_header_1
    + length table_header_2
    + length table_header_3
    + length table_header_4
    + length table_header_5

-- What is read of `struct Table` and its specification. The name of a column that is joined to the one
-- before is NULL; the first column has a name.
pub record Table : Type 0 where
  pub path : List ℕ
  pub name : List ℕ
  pub database_name : List ℕ
  pub first_column : List ℕ
  pub other_columns : List (Option (List ℕ))
  pub row_count : ℕ
  pub total : ℕ

unfoldable pub add_size : ℕ → ℕ → ℕ
add_size a b = (a + b) % 2 ^ 64

unfoldable pub sub_size : ℕ → ℕ → ℕ
sub_size a b = (a + (2 ^ 64 - b % 2 ^ 64)) % 2 ^ 64

-- the loop of table_size_contents: size_contents and count_joins
unfoldable pub size_columns : List (Option (List ℕ)) → ℕ → ℕ → ℕ × ℕ
size_columns [] size joins = (size, joins)
size_columns (none ∷ columns) size joins = size_columns columns size ((joins + 1) % 2 ^ 32)
size_columns (some name ∷ columns) size joins =
    size_columns columns (add_size size (1 + length name)) joins

-- file.contents.length and count_joins
unfoldable pub table_size_contents : Table → ℕ × ℕ
table_size_contents table =
    let size = add_size table_header_base_size (
      length table.path
      + length table.name
      + length table.database_name
      + table.total
      + length table.first_column) in
    let r = size_columns table.other_columns size 0 in (sub_size r.0 (r.1 * table.row_count), r.1)

-- the loop of table_put_header
unfoldable pub put_columns : List (Option (List ℕ)) → List ℕ → List ℕ
put_columns [] out = out
put_columns (none ∷ columns) out = put_columns columns out
put_columns (some name ∷ columns) out = put_columns columns ((out ++ field_delim ∷ []) ++ name)

unfoldable pub table_put_header : Table → List ℕ
table_put_header table =
    let out = table_header_1 ++ table.path in
    let out = (out ++ table_header_2) ++ table.name in
    let out = (out ++ table_header_3) ++ table.database_name in
    let out = (out ++ table_header_4) ++ table.first_column in
    put_columns table.other_columns out ++ table_header_5

-- what is read of `struct RowBlock`
pub record Block : Type 0 where
  pub total : ℕ
  pub row_count : ℕ

-- The loop of build_table_init from a block on: the `contents` of the blocks.
unfoldable pub block_contents : ℕ → ℕ → Block → List Block → List ℕ
block_contents joins ptr block [] = ptr ∷ []
block_contents joins ptr block (next ∷ blocks) =
    ptr
    ∷ block_contents joins (add_size ptr (sub_size block.total (joins * block.row_count))) next
        blocks

-- What malloc is asked for and, if it grants the memory, the header and the `contents` of the blocks.
unfoldable pub build_table_init : Table → Block → List Block → ℕ × List ℕ × List ℕ
build_table_init table block blocks =
    let size = table_size_contents table in
    let header = table_put_header table in
    (size.0, header, block_contents size.1 (length header) block blocks)

-- the loop of table_size_contents_no_header: count_joins
unfoldable pub count_columns : List (Option (List ℕ)) → ℕ → ℕ
count_columns [] joins = joins
count_columns (none ∷ columns) joins = count_columns columns ((joins + 1) % 2 ^ 32)
count_columns (some name ∷ columns) joins = count_columns columns joins

unfoldable pub table_size_contents_no_header : Table → ℕ × ℕ
table_size_contents_no_header table =
    let joins = count_columns (some table.first_column ∷ table.other_columns) 0 in
    (sub_size table.total (joins * table.row_count + 1), joins)

-- What malloc is asked for and, if it grants the memory, the `contents` of the blocks.
unfoldable pub build_table_init_no_header : Table → Block → List Block → ℕ × List ℕ
build_table_init_no_header table block blocks =
    let size = table_size_contents_no_header table in (size.0, block_contents size.1 0 block blocks)
