-- ===== src/Generate/Node.antt =====
-- mysql_seed_generate.h: the nodes that close a column, and those of a GRP_SPEC. A node takes
-- `argv.arg`, from `argv.arg.from` on, and the rest of the state. The calls are tail calls: those of
-- the three functions that a cycle of calls passes are the constructors of `Next`.
use Prim.Native.String.{String}
use mysql_seed.Decimal.Parse.{strings_equal}
use mysql_seed.Generate.Flag.{Arg, flag_match_next}
use mysql_seed.Generate.Count.{parse_grp_count}
use mysql_seed.Generate.State.{
  GenerateParseState, Partition, even, linear, parse_valid_complete, parse_table_complete,
}
use mysql_seed.Prelude.{
  ℕ, Bool, true, false, ◌||◌, Option, none, some, List, [], ◌∷◌, ◌++◌, if◌then◌else◌, codes,
}

-- What a node does last: a call, or the end of the parsing. `join_spec` is the call of
-- parse_join_spec, and `fault` a step beyond `argv.arg.until` or a read there.
pub data Next : Type 0 where
  next_col : List Arg → GenerateParseState → Next
  next_tbl : List Arg → GenerateParseState → Next
  next_db : List Arg → GenerateParseState → Next
  join_spec : List Arg → GenerateParseState → Next
  done : GenerateParseState → Next
  fault : Next

abbrev pub Node : Type 0
Node = List Arg → GenerateParseState → Next

-- A case of the switches on an argument: `-` and the short name, or `--` and the long one.
unfoldable pub spec_flag : Arg → (short long : List ℕ) → Bool
spec_flag arg short long =
    strings_equal arg (b'-' ∷ short) || strings_equal arg (b'-' ∷ b'-' ∷ long)

-- A switch on an argument: the call of the first case whose flag it is.
abbrev pub Case : Type 0
Case = Arg × Arg × Next

abbrev pub on_flag : (short long : String) → Next → Case
on_flag short long next = (codes short, codes long, next)

unfoldable pub switch : Arg → List Case → (otherwise : Next) → Next
unfolding spec_flag
switch arg [] otherwise = otherwise
switch arg ((short, long, next) ∷ cases) otherwise =
    let rest = switch arg cases otherwise in if spec_flag arg short long then next else rest

-- A test that has reported an error where it fails.
unfoldable pub expect : Bool → (error rest : Next) → Next
expect false error rest = error
expect true error rest = rest

-- What has been read from an argument, or the error that it has reported.
unfoldable pub given {ℓ} : {A : Type ℓ} → Option A → (error : Next) → (A → Next) → Next
given none error rest = error
given (some value) error rest = rest value

-- The errors that skip the current DB_SPEC. The search starts behind `argv.arg.from`, which may be
-- `argv.arg.until` already.
unfoldable pub generate_parse_error : Node
generate_parse_error [] s = next_db [] (record s { exit_failure = true })
generate_parse_error (arg ∷ args) s =
    next_db (flag_match_next args b'd' (codes "database")) (record s { exit_failure = true })

-- The errors that end the parsing, error_no_* and error_inc_db_spec_*: *(valid.last) = NULL.
unfoldable pub error_stop : GenerateParseState → Next
error_stop s = done (record s { terminated = true; exit_failure = true })

unfoldable pub generate_parse_complete : GenerateParseState → Next
generate_parse_complete s = done (record (parse_valid_complete s) { terminated = true })

-- the table that is complete, behind those before it
unfoldable pub tables_complete : GenerateParseState → GenerateParseState
tables_complete s = record s { tables = s.tables ++ (parse_table_complete s ∷ []) }

-- The cases of the flags of the next column, table and database, and the otherwise.
unfoldable pub close_spec : (set : GenerateParseState → GenerateParseState) → Arg → Node
unfolding spec_flag tables_complete generate_parse_error
close_spec set arg args s =
    switch arg
      (on_flag "c" "column" (next_col args (set s))
        ∷ on_flag "t" "table" (next_tbl args (tables_complete (set s)))
        ∷ on_flag "d" "database" (next_db args (parse_valid_complete (set s)))
        ∷ [])
      (generate_parse_error args s)

unfoldable pub parse_column_complete :
    (set_col_spec : GenerateParseState → GenerateParseState) (handle_grp_spec : Node) → Node
unfolding close_spec generate_parse_complete
parse_column_complete set_col_spec handle_grp_spec [] s = fault
parse_column_complete set_col_spec handle_grp_spec (_ ∷ []) s =
    generate_parse_complete (set_col_spec s)
parse_column_complete set_col_spec handle_grp_spec (_ ∷ arg ∷ args) s =
    switch arg (on_flag "g" "group" (handle_grp_spec (arg ∷ args) s) ∷ [])
      (close_spec set_col_spec arg (arg ∷ args) s)

unfoldable pub error_multiple_grp_specs : Node
unfolding generate_parse_error
error_multiple_grp_specs [] s = fault
error_multiple_grp_specs (_ ∷ args) s = generate_parse_error args s

unfoldable pub error_grp_spec_for_fixed_data : Node
unfolding generate_parse_error
error_grp_spec_for_fixed_data args s = generate_parse_error args s

abbrev pub set_partition : Partition → GenerateParseState → GenerateParseState
set_partition partition s = record s { col = record s.col { partition = partition } }

abbrev pub set_grp_count : ℕ → GenerateParseState → GenerateParseState
set_grp_count grp_count s = record s { col = record s.col { grp_count = grp_count } }

-- what follows the count of the groups
unfoldable pub grp_spec_close : (set_col_spec : GenerateParseState → GenerateParseState) → Node
unfolding parse_column_complete
grp_spec_close set_col_spec [] s = fault
grp_spec_close set_col_spec (_ ∷ []) s =
    generate_parse_complete (set_col_spec (set_partition even s))
grp_spec_close set_col_spec (_ ∷ arg ∷ args) s =
    switch arg
      (on_flag "e" "even" (
          parse_column_complete set_col_spec error_multiple_grp_specs (arg ∷ args)
            (set_partition even s))
        ∷ on_flag "l" "linear" (
            parse_column_complete set_col_spec error_multiple_grp_specs (arg ∷ args)
              (set_partition linear s))
        ∷ on_flag "g" "group" (error_multiple_grp_specs (arg ∷ args) s)
        ∷ [])
      (close_spec (λ t. set_col_spec (set_partition even t)) arg (arg ∷ args) s)

unfoldable pub parse_grp_spec : (set_col_spec : GenerateParseState → GenerateParseState) → Node
unfolding grp_spec_close error_stop given
parse_grp_spec set_col_spec [] s = fault
parse_grp_spec set_col_spec (_ ∷ []) s = error_stop s
parse_grp_spec set_col_spec (_ ∷ arg ∷ args) s =
    given (parse_grp_count s.row_count arg) (generate_parse_error (arg ∷ args) s)
      λ grp_count. grp_spec_close set_col_spec (arg ∷ args) (set_grp_count grp_count s)
