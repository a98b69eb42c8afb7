-- ===== src/Generate/State.antt =====
-- mysql_seed_generate.h: the state of the parser. Specifications are written one behind another into
-- one block of memory; here the finished ones are lists, and the one being built is a record.
use mysql_seed.Generate.Flag.{Arg}
use mysql_seed.Prelude.{ℕ, ◌+◌, Bool, true, false, List, [], ◌∷◌, ◌++◌, if◌then◌else◌, ltb}

-- which `column_*` function has set a column, without its group, and with what it has been given
pub data Kind : Type 0 where
  integer_default : Kind
  integer_unique : Kind
  integer_fixed : (parsed : ℕ) → Kind
  integer_random_default : Kind
  integer_random_from : (min : ℕ) → Kind
  integer_random_upto : (max : ℕ) → Kind
  integer_random_range : (min max : ℕ) → Kind
  u_integer_default : Kind
  u_integer_unique : Kind
  u_integer_fixed : (parsed : ℕ) → Kind
  u_integer_random_default : Kind
  u_integer_random_from : (min : ℕ) → Kind
  u_integer_random_upto : (max : ℕ) → Kind
  u_integer_random_range : (min max : ℕ) → Kind
  string_default : Kind
  string_unique : (base : Arg) → Kind
  string_fixed : (fixed : Arg) → Kind
  string_uuid : Kind
  string_hash : (hash_length : ℕ) → Kind
  string_names_first : Kind
  string_names_last : Kind
  string_names_full : Kind
  timestamp_default : Kind
  timestamp_unique : Kind
  timestamp_fixed : Kind
  datetime_default : Kind
  datetime_unique : Kind
  datetime_fixed : Kind

-- `partition_groups_even` or `partition_groups_linear`
pub data Partition : Type 0 where
  even : Partition
  linear : Partition

-- a column whose setter has not been called yet, or the setter, in its form without or with a group
pub data Build : Type 0 where
  unset : Build
  ungrouped : Kind → Build
  grouped : Kind → Build

-- `grp_count` and `partition` are what has been written last, and matter for `grouped` only
pub record ColSpec : Type 0 where
  pub name : Arg
  pub grp_count : ℕ
  pub partition : Partition
  pub build : Build

pub record TblSpec : Type 0 where
  pub name : Arg
  pub row_count : ℕ
  pub col_specs : List ColSpec

pub record DbSpec : Type 0 where
  pub name : Arg
  pub tbl_specs : List TblSpec

-- without `ctor_flags`
pub record GeneratorCounter : Type 0 where
  pub rows : ℕ
  pub row_count_max : ℕ
  pub columns : ℕ
  pub tables : ℕ
  pub databases : ℕ
  pub counter_upto : ℕ

pub record DatabaseCounter : Type 0 where
  pub rows : ℕ
  pub row_count_max : ℕ
  pub tables : ℕ
  pub columns : ℕ
  pub counter_upto : ℕ

-- The specifications: `db_name`, the tables of the database before the current one, `tbl_name`,
-- `row_count`, the columns of the table before the current one, and the current one; the counters;
-- the valid databases, and whether `*(valid.last)` has been set to NULL; the exit status.
pub record GenerateParseState : Type 0 where
  pub db_name : Arg
  pub tables : List TblSpec
  pub tbl_name : Arg
  pub row_count : ℕ
  pub cols : List ColSpec
  pub col : ColSpec
  pub generator : GeneratorCounter
  pub database : DatabaseCounter
  pub valid : List DbSpec
  pub terminated : Bool
  pub exit_failure : Bool

abbrev pub col_spec_blank : Arg → ColSpec
col_spec_blank name = record { name = name; grp_count = 0; partition = even; build = unset }

-- `if (value > *most) *most = value;`
abbrev pub raise : (value most : ℕ) → ℕ
raise value most = if ltb most value then value else most

unfoldable pub generator_counter_update : GeneratorCounter → DatabaseCounter → GeneratorCounter
generator_counter_update generator database = record {
  rows = generator.rows + database.rows;
  row_count_max = raise database.row_count_max generator.row_count_max;
  columns = generator.columns + database.columns;
  tables = generator.tables + database.tables;
  databases = generator.databases + 1;
  counter_upto = raise database.counter_upto generator.counter_upto;
}

unfoldable pub database_counter_init : (row_count : ℕ) → DatabaseCounter
database_counter_init row_count = record {
  rows = row_count;
  row_count_max = row_count;
  tables = 1;
  columns = 1;
  counter_upto = 0;
}

-- the setters that raise `counter_upto`
unfoldable pub counts_up : Kind → Bool
counts_up integer_default = true
counts_up integer_unique = true
counts_up u_integer_default = true
counts_up u_integer_unique = true
counts_up string_default = true
counts_up (string_unique base) = true
counts_up _ = false

abbrev pub set_build : Build → ℕ → Bool → GenerateParseState → GenerateParseState
set_build build count up s = record s {
  col = record s.col { build = build };
  database = record s.database {
    counter_upto = if up then raise count s.database.counter_upto else s.database.counter_upto;
  };
}

-- The `column_*` functions without and with `_group`: the setter, and the counter that it raises to
-- the number of the values it counts through.
unfoldable pub column : Kind → GenerateParseState → GenerateParseState
unfolding counts_up
column kind s = set_build (ungrouped kind) s.row_count (counts_up kind) s

unfoldable pub column_group : Kind → GenerateParseState → GenerateParseState
unfolding counts_up
column_group kind s = set_build (grouped kind) s.col.grp_count (counts_up kind) s

-- the table with the column that has been set last
unfoldable pub parse_table_complete : GenerateParseState → TblSpec
parse_table_complete s = record {
  name = s.tbl_name;
  row_count = s.row_count;
  col_specs = s.cols ++ (s.col ∷ []);
}

unfoldable pub parse_valid_complete : GenerateParseState → GenerateParseState
unfolding parse_table_complete generator_counter_update
parse_valid_complete s = record s {
  valid =
      s.valid
      ++ (record { name = s.db_name; tbl_specs = s.tables ++ (parse_table_complete s ∷ []) } ∷ []);
  generator = generator_counter_update s.generator s.database;
}
