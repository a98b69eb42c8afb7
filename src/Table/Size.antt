-- ===== src/Table/Size.antt =====
-- The sums of table_size_contents and the length of what table_put_header writes.
use mysql_seed.Prelude.{
  ℕ, ◌+◌, ◌-◌, ◌%◌, ◌^◌, ◌≤◌, ◌<◌, ◌≡◌, ap₂, ◌∙◌, Option, none, some, List, [], ◌∷◌, ◌++◌, arith,
  length, length-append,
}
use mysql_seed.RowBlock.{field_delim}
use mysql_seed.Table.{
  Table, table_header_1, table_header_2, table_header_3, table_header_4, table_header_5,
  table_header_base_size, add_size, sub_size, size_columns, put_columns, table_put_header,
}

pub add_size-small : (a b : ℕ) → a + b < 2 ^ 64 → add_size a b ≡ a + b
unfolding add_size
add_size-small a b h = omega arith

pub sub_size-small : (a b : ℕ) → b ≤ a → a < 2 ^ 64 → sub_size a b ≡ a - b
unfolding sub_size
sub_size-small a b h l = omega arith

-- the names of the other columns, each with its delimiter
abbrev pub names_size : List (Option (List ℕ)) → ℕ
names_size [] = 0
names_size (none ∷ columns) = names_size columns
names_size (some name ∷ columns) = 1 + length name + names_size columns

abbrev pub count_null : List (Option (List ℕ)) → ℕ
count_null [] = 0
count_null (none ∷ columns) = 1 + count_null columns
count_null (some name ∷ columns) = count_null columns

pub size_columns-sum :
    (columns : List (Option (List ℕ))) (size joins : ℕ)
    → size + names_size columns < 2 ^ 64
    → joins + count_null columns < 2 ^ 32
    → size_columns columns size joins ≡ (size + names_size columns, joins + count_null columns)
unfolding size_columns
size_columns-sum [] size joins h k = ap₂ (λ a b. (a, b)) (omega arith) (omega arith)
size_columns-sum (none ∷ columns) size joins h k =
    let e : (joins + 1) % 2 ^ 32 ≡ joins + 1 = omega arith in
    rw e (
      size_columns-sum columns size (joins + 1) h (omega arith)
      ∙ ap₂ (λ a b. (a, b)) (omega arith) (omega arith))
size_columns-sum (some name ∷ columns) size joins h k =
    rw (add_size-small size (1 + length name) (omega arith)) (
      size_columns-sum columns (size + (1 + length name)) joins (omega arith) k
      ∙ ap₂ (λ a b. (a, b)) (omega arith) (omega arith))

put_columns-length :
    (columns : List (Option (List ℕ))) (out : List ℕ)
    → length (put_columns columns out) ≡ length out + names_size columns
unfolding put_columns
put_columns-length [] out = omega arith
put_columns-length (none ∷ columns) out = put_columns-length columns out
put_columns-length (some name ∷ columns) out = omega (
  arith,
  put_columns-length columns ((out ++ field_delim ∷ []) ++ name),
  length-append (out ++ field_delim ∷ []) name,
  length-append out (field_delim ∷ []),
)

length-section : (out a b : List ℕ) → length ((out ++ a) ++ b) ≡ length out + length a + length b
length-section out a b = length-append (out ++ a) b ∙ omega (arith, length-append out a)

pub table_put_header-length :
    (table : Table)
    → length (table_put_header table)
      ≡ table_header_base_size
        + length table.path
        + length table.name
        + length table.database_name
        + length table.first_column
        + names_size table.other_columns
unfolding table_put_header table_header_base_size
table_put_header-length table =
    let a = table_header_1 ++ table.path in
    let b = (a ++ table_header_2) ++ table.name in
    let c = (b ++ table_header_3) ++ table.database_name in
    let d = (c ++ table_header_4) ++ table.first_column in
    omega (
      arith,
      length-append (put_columns table.other_columns d) table_header_5,
      put_columns-length table.other_columns d,
      length-section c table_header_4 table.first_column,
      length-section b table_header_3 table.database_name,
      length-section a table_header_2 table.name,
      length-append table_header_1 table.path,
    )

pub count_null-le : (columns : List (Option (List ℕ))) → count_null columns ≤ length columns
count_null-le [] = omega arith
count_null-le (none ∷ columns) = omega (arith, count_null-le columns)
count_null-le (some name ∷ columns) = omega (arith, count_null-le columns)
