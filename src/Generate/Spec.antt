-- ===== src/Generate/Spec.antt =====
-- mysql_seed_generate.h: COL_SPEC, TBL_SPEC and DB_SPEC, and the parsing of all arguments.
use mysql_seed.Generate.Flag.{Arg, flag_match}
use mysql_seed.Generate.Count.{parse_row_count}
use mysql_seed.Generate.Name.{NameResult, named, parse_db_name, parse_tbl_name, parse_col_name}
use mysql_seed.Generate.Node.{
  Next, next_col, next_tbl, next_db, join_spec, done, fault, Node, expect, given, switch, on_flag,
  generate_parse_error, error_stop,
}
use mysql_seed.Generate.ColType.Integer.{parse_integer_qualifier}
use mysql_seed.Generate.ColType.UInteger.{parse_u_integer_qualifier}
use mysql_seed.Generate.ColType.Text.{parse_string_qualifier}
use mysql_seed.Generate.ColType.Time.{parse_timestamp_qualifier, parse_datetime_qualifier}
use mysql_seed.Generate.State.{GenerateParseState, col_spec_blank, raise, database_counter_init}
use mysql_seed.Prelude.{
  ℕ, zero, suc, ◌+◌, Bool, true, false, not, List, [], ◌∷◌, ◌++◌, if◌then◌else◌, leb, length, codes,
}

unfoldable pub parse_col_type : Node
parse_col_type [] s = fault
parse_col_type (arg ∷ args) s =
    switch arg
      (on_flag "i" "integer" (parse_integer_qualifier (arg ∷ args) s)
        ∷ on_flag "u" "unsigned-integer" (parse_u_integer_qualifier (arg ∷ args) s)
        ∷ on_flag "s" "string" (parse_string_qualifier (arg ∷ args) s)
        ∷ on_flag "ts" "timestamp" (parse_timestamp_qualifier (arg ∷ args) s)
        ∷ on_flag "dt" "datetime" (parse_datetime_qualifier (arg ∷ args) s)
        ∷ [])
      (generate_parse_error (arg ∷ args) s)

abbrev pub is_named : NameResult → Bool
is_named (named length) = true
is_named _ = false

-- the first column of a table
abbrev pub first_col : Arg → GenerateParseState → GenerateParseState
first_col name s = record s { cols = []; col = col_spec_blank name }

-- ++(state->database.columns)
abbrev pub count_column : GenerateParseState → GenerateParseState
count_column s = record s { database = record s.database { columns = s.database.columns + 1 } }

-- The first column of a database; its arguments are there, so `argv.arg.until` is not looked at.
unfoldable pub parse_first_col_spec_safe : Node
unfolding parse_col_type expect
parse_first_col_spec_safe (_ ∷ flag ∷ name ∷ arg ∷ args) s =
    expect (flag_match flag b'c' (codes "column"))
      (generate_parse_error (flag ∷ name ∷ arg ∷ args) s)
      (expect (is_named (parse_col_name name)) (generate_parse_error (name ∷ arg ∷ args) s)
        (parse_col_type (arg ∷ args) (first_col name s)))
parse_first_col_spec_safe _ s = fault

unfoldable pub parse_first_col_spec : Node
unfolding parse_col_type expect
parse_first_col_spec [] s = fault
parse_first_col_spec (flag ∷ []) s =
    expect (flag_match flag b'c' (codes "column")) (generate_parse_error (flag ∷ []) s)
      (error_stop s)
parse_first_col_spec (flag ∷ name ∷ []) s =
    expect (flag_match flag b'c' (codes "column")) (generate_parse_error (flag ∷ name ∷ []) s)
      (expect (is_named (parse_col_name name)) (generate_parse_error (name ∷ []) s) (error_stop s))
parse_first_col_spec (flag ∷ name ∷ arg ∷ args) s =
    expect (flag_match flag b'c' (codes "column"))
      (generate_parse_error (flag ∷ name ∷ arg ∷ args) s)
      (expect (is_named (parse_col_name name)) (generate_parse_error (name ∷ arg ∷ args) s)
        (parse_col_type (arg ∷ args) (count_column (first_col name s))))

-- the column that has been set, and a new one
abbrev pub next_col_of : Arg → GenerateParseState → GenerateParseState
next_col_of name s = record s { cols = s.cols ++ (s.col ∷ []); col = col_spec_blank name }

unfoldable pub parse_next_col_spec : Node
unfolding parse_col_type expect
parse_next_col_spec [] s = fault
parse_next_col_spec (_ ∷ []) s = error_stop s
parse_next_col_spec (_ ∷ name ∷ []) s =
    expect (is_named (parse_col_name name)) (generate_parse_error (name ∷ []) s) (error_stop s)
parse_next_col_spec (_ ∷ name ∷ arg ∷ args) s =
    expect (is_named (parse_col_name name)) (generate_parse_error (name ∷ arg ∷ args) s)
      (parse_col_type (arg ∷ args) (count_column (next_col_of name s)))

-- the first table of a database
abbrev pub first_tbl : Arg → ℕ → GenerateParseState → GenerateParseState
first_tbl name row_count s = record s {
  tables = [];
  tbl_name = name;
  row_count = row_count;
  database = database_counter_init row_count;
}

unfoldable pub parse_first_tbl_spec : Node
unfolding parse_first_col_spec_safe given
parse_first_tbl_spec (_ ∷ flag ∷ name ∷ rows ∷ args) s =
    expect (flag_match flag b't' (codes "table"))
      (generate_parse_error (flag ∷ name ∷ rows ∷ args) s)
      (expect (is_named (parse_tbl_name name)) (generate_parse_error (name ∷ rows ∷ args) s) (
        given (parse_row_count rows) (generate_parse_error (rows ∷ args) s)
          λ row_count. parse_first_col_spec_safe (rows ∷ args) (first_tbl name row_count s)))
parse_first_tbl_spec _ s = fault

-- a table behind the first
abbrev pub next_tbl_of : Arg → ℕ → GenerateParseState → GenerateParseState
next_tbl_of name row_count s = record s {
  tbl_name = name;
  row_count = row_count;
  database = record s.database {
    rows = s.database.rows + row_count;
    row_count_max = raise row_count s.database.row_count_max;
    tables = s.database.tables + 1;
  };
}

unfoldable pub parse_next_tbl_spec : Node
unfolding parse_first_col_spec given
parse_next_tbl_spec [] s = fault
parse_next_tbl_spec (_ ∷ []) s = error_stop s
parse_next_tbl_spec (_ ∷ name ∷ []) s =
    expect (is_named (parse_tbl_name name)) (generate_parse_error (name ∷ []) s) (error_stop s)
parse_next_tbl_spec (_ ∷ name ∷ rows ∷ []) s =
    expect (is_named (parse_tbl_name name)) (generate_parse_error (name ∷ rows ∷ []) s)
      (given (parse_row_count rows) (generate_parse_error (rows ∷ []) s) λ row_count. error_stop s)
parse_next_tbl_spec (_ ∷ name ∷ rows ∷ flag ∷ args) s =
    expect (is_named (parse_tbl_name name)) (generate_parse_error (name ∷ rows ∷ flag ∷ args) s) (
      given (parse_row_count rows) (generate_parse_error (rows ∷ flag ∷ args) s)
        λ row_count. parse_first_col_spec (flag ∷ args) (next_tbl_of name row_count s))

abbrev pub set_db_name : Arg → GenerateParseState → GenerateParseState
set_db_name name s = record s { db_name = name }

-- from the flag of the database on
unfoldable pub parse_first_db_spec : Node
unfolding parse_first_tbl_spec
parse_first_db_spec (_ ∷ name ∷ args) s =
    expect (is_named (parse_db_name name)) (generate_parse_error (name ∷ args) s)
      (parse_first_tbl_spec (name ∷ args) (set_db_name name s))
parse_first_db_spec _ s = fault

abbrev pub db_spec_length_min : ℕ
db_spec_length_min = 8

-- `argv.arg.from < argv.db_spec.until`, which is `argv.arg.until + 1 - DB_SPEC_LENGTH_MIN`
abbrev pub has_db_spec : List Arg → Bool
has_db_spec args = leb db_spec_length_min (length args)

unfoldable pub parse_next_db_spec : Node
unfolding parse_first_db_spec error_stop
parse_next_db_spec args s = if has_db_spec args then parse_first_db_spec args s else error_stop s

unfoldable pub parse_db_specs : Node
unfolding parse_first_db_spec
parse_db_specs [] s = fault
parse_db_specs (arg ∷ args) s =
    expect (flag_match arg b'd' (codes "database")) (generate_parse_error (arg ∷ args) s)
      (parse_first_db_spec (arg ∷ args) s)

-- Where the arguments end up: `refused` without a parsing, and `joined` at a call of parse_join_spec.
pub data Outcome : Type 0 where
  refused : Outcome
  finished : GenerateParseState → Outcome
  joined : List Arg → GenerateParseState → Outcome
  faulted : Outcome
  out_of_fuel : Outcome

-- the calls, one after the other, on fuel
unfoldable pub run : ℕ → Next → Outcome
unfolding parse_next_col_spec parse_next_tbl_spec parse_next_db_spec
run fuel (done s) = finished s
run fuel (join_spec args s) = joined args s
run fuel fault = faulted
run zero (next_col args s) = out_of_fuel
run zero (next_tbl args s) = out_of_fuel
run zero (next_db args s) = out_of_fuel
run (suc fuel) (next_col args s) = run fuel (parse_next_col_spec args s)
run (suc fuel) (next_tbl args s) = run fuel (parse_next_tbl_spec args s)
run (suc fuel) (next_db args s) = run fuel (parse_next_db_spec args s)

-- The state that generate_dispatch starts with; the specifications are not written yet.
abbrev pub initial_state : GenerateParseState
initial_state = record {
  db_name = [];
  tables = [];
  tbl_name = [];
  row_count = 0;
  cols = [];
  col = col_spec_blank [];
  generator = record {
    rows = 0;
    row_count_max = 0;
    columns = 0;
    tables = 0;
    databases = 0;
    counter_upto = 0;
  };
  database = record { rows = 0; row_count_max = 0; tables = 0; columns = 0; counter_upto = 0 };
  valid = [];
  terminated = false;
  exit_failure = false;
}

-- generate_dispatch up to the generation, for an allocation that succeeds. Fuel: every call takes an
-- argument at least.
unfoldable pub generate_dispatch : List Arg → Outcome
unfolding run parse_db_specs
generate_dispatch args =
    if not (has_db_spec args)
    then refused
    else run (length args + 1) (parse_db_specs args initial_state)
