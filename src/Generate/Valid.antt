-- ===== src/Generate/Valid.antt =====
-- Well-formed specifications, and counters that agree with them.
pub mod Change
pub mod Table
pub mod Good
use mysql_seed.Generate.Count.{upto_max}
use mysql_seed.Generate.Name.{parse_db_name, parse_tbl_name, parse_col_name}
use mysql_seed.Generate.Spec.{is_named}
use mysql_seed.Generate.State.{
  Build, unset, ungrouped, grouped, ColSpec, TblSpec, DbSpec, GeneratorCounter, DatabaseCounter,
  GenerateParseState, counts_up, parse_table_complete,
}
use mysql_seed.Prelude.{
  ℕ, ◌≤◌, ◌<◌, ◌≡◌, Bool, true, List, [], ◌∷◌, ◌++◌, if◌then◌else◌, length, Every, total, greatest,
}

-- a group has at least one row, and there are no more groups than rows
abbrev pub IsBuild : (row_count grp_count : ℕ) → Build → Type 0
IsBuild row_count grp_count unset = 1 ≤ 0
IsBuild row_count grp_count (ungrouped kind) = 0 ≤ 0
IsBuild row_count grp_count (grouped kind) = (0 < grp_count) × (grp_count ≤ row_count)

abbrev pub IsCol : (row_count : ℕ) → ColSpec → Type 0
IsCol row_count c =
    (is_named (parse_col_name c.name) ≡ true) × IsBuild row_count c.grp_count c.build

abbrev pub IsHead : TblSpec → Type 0
IsHead t = (is_named (parse_tbl_name t.name) ≡ true) × (0 < t.row_count) × (t.row_count ≤ upto_max)

abbrev pub IsTbl : TblSpec → Type 0
IsTbl t = IsHead t × (0 < length t.col_specs) × Every (IsCol t.row_count) t.col_specs

abbrev pub IsDb : DbSpec → Type 0
IsDb d =
    (is_named (parse_db_name d.name) ≡ true) × (0 < length d.tbl_specs) × Every IsTbl d.tbl_specs

-- what a column makes of `counter_upto`
abbrev pub build_upto : (row_count grp_count : ℕ) → Build → ℕ
build_upto row_count grp_count unset = 0
build_upto row_count grp_count (ungrouped kind) = if counts_up kind then row_count else 0
build_upto row_count grp_count (grouped kind) = if counts_up kind then grp_count else 0

abbrev pub col_upto : (row_count : ℕ) → ColSpec → ℕ
col_upto row_count c = build_upto row_count c.grp_count c.build

abbrev pub tbl_rows : TblSpec → ℕ
tbl_rows t = t.row_count

abbrev pub tbl_columns : TblSpec → ℕ
tbl_columns t = length t.col_specs

abbrev pub tbl_upto : TblSpec → ℕ
tbl_upto t = greatest (col_upto t.row_count) t.col_specs

-- the counters of a database stand for its tables
pub record Tally (c : DatabaseCounter) (done : List TblSpec) : Type 0 where
  pub rows : c.rows ≡ total tbl_rows done
  pub row_count_max : c.row_count_max ≡ greatest tbl_rows done
  pub tables : c.tables ≡ length done
  pub columns : c.columns ≡ total tbl_columns done
  pub counter_upto : c.counter_upto ≡ greatest tbl_upto done

-- the counters of the generator stand for the databases
pub record GeneratorTally (c : GeneratorCounter) (valid : List DbSpec) : Type 0 where
  pub rows : c.rows ≡ total (λ d. total tbl_rows d.tbl_specs) valid
  pub row_count_max : c.row_count_max ≡ greatest (λ d. greatest tbl_rows d.tbl_specs) valid
  pub tables : c.tables ≡ total (λ d. length d.tbl_specs) valid
  pub columns : c.columns ≡ total (λ d. total tbl_columns d.tbl_specs) valid
  pub databases : c.databases ≡ length valid
  pub counter_upto : c.counter_upto ≡ greatest (λ d. greatest tbl_upto d.tbl_specs) valid

-- Between two databases.
abbrev pub Idle : GenerateParseState → Type 0
Idle s = Every IsDb s.valid × GeneratorTally s.generator s.valid

-- The database up to the current table.
abbrev pub InDb : GenerateParseState → Type 0
InDb s = Idle s × (is_named (parse_db_name s.db_name) ≡ true) × Every IsTbl s.tables

-- The current table up to the current column: `t` is the table with it.
abbrev pub InTbl : GenerateParseState → Type 0
InTbl s =
    InDb s
    × IsHead (parse_table_complete s)
    × Every (IsCol s.row_count) s.cols
    × (is_named (parse_col_name s.col.name) ≡ true)
    × Tally s.database (s.tables ++ (parse_table_complete s ∷ []))

-- the current column is not set yet, or it is
abbrev pub Open : GenerateParseState → Type 0
Open s = InTbl s × (s.col.build ≡ unset)

abbrev pub Closed : GenerateParseState → Type 0
Closed s = InTbl s × IsBuild s.row_count s.col.grp_count s.col.build

-- the current table is finished, and the next one has not begun
abbrev pub TblDone : GenerateParseState → Type 0
TblDone s = InDb s × Tally s.database s.tables

-- the current table has begun, without a column
abbrev pub tbl_blank : GenerateParseState → TblSpec
tbl_blank s = record { name = s.tbl_name; row_count = s.row_count; col_specs = [] }

abbrev pub TblBegun : GenerateParseState → Type 0
TblBegun s = InDb s × IsHead (tbl_blank s) × Tally s.database (s.tables ++ (tbl_blank s ∷ []))
