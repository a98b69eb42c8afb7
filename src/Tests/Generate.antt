-- ===== src/Tests/Generate.antt =====
-- The command line of mode generate on concrete arguments.
use Prim.Native.String.{String}
use mysql_seed.Prelude.{
  ℕ, ◌+◌, ◌-◌, ◌^◌, ◌≡◌, ◌≢◌, refl, Bool, true, false, ◌||◌, Option, none, some, List, [], ◌∷◌,
  ◌++◌, map, arith, if◌then◌else◌, length, codes, Every,
}
use mysql_seed.Decimal.{uint_digit_count, put_uint}
use mysql_seed.Decimal.Parse.{parse_uint, parse_int, strings_equal}
use mysql_seed.Decimal.Parse.Scan.{turn}
use mysql_seed.Decimal.Parse.Accept.{
  within, signed_within, parse_uint-within, parse_int-signed_within,
}
use mysql_seed.Decimal.Parse.Print.{parse_uint-put_uint}
use mysql_seed.Decimal.Parse.{
  do_parse_uint, parse_significant, scan_digits, sum_back, sum_digits, ten_pow_map, string_compare,
  negate,
}
use mysql_seed.Utf8.{utf8_width, utf8_rest, utf8_head_width}
use mysql_seed.Generate.Flag.{short_flag_match, long_flag_match}
use mysql_seed.Generate.Name.{name_loop}
use mysql_seed.Generate.Count.{parse_row_count, parse_grp_count}
use mysql_seed.Generate.State.{
  parse_valid_complete, parse_table_complete, column, column_group, counts_up,
  database_counter_init, generator_counter_update,
}
use mysql_seed.Generate.Node.{
  switch, spec_flag, expect, given, generate_parse_error, error_stop, generate_parse_complete,
  tables_complete, close_spec, parse_column_complete, parse_grp_spec, grp_spec_close,
}
use mysql_seed.Generate.ColType.{parse_group, parse_plain, parse_argument, parse_qualifier}
use mysql_seed.Generate.ColType.Integer.{
  parse_integer_qualifier, integer_cases, parse_integer_random, integer_random_cases,
  parse_integer_random_range, signed_lt,
}
use mysql_seed.Generate.ColType.UInteger.{parse_u_integer_qualifier, u_integer_cases}
use mysql_seed.Generate.ColType.Text.{parse_string_qualifier, string_cases}
use mysql_seed.Generate.Spec.{
  run, parse_db_specs, parse_first_db_spec, parse_first_tbl_spec, parse_first_col_spec_safe,
  parse_first_col_spec, parse_next_col_spec, parse_next_tbl_spec, parse_next_db_spec,
  parse_col_type, initial_state,
}
use mysql_seed.Utf8.Automaton.{code_points}
use mysql_seed.Generate.Flag.{Arg, flag_match, flag_match_count, flag_match_next}
use mysql_seed.Generate.Flag.Match.{Begins, flag_match_lem, flag_match_next-splits}
use mysql_seed.Generate.Name.{
  parse_db_name, parse_tbl_name, parse_col_name, parse_base_string, parse_fixed_string,
}
use mysql_seed.Generate.Name.Accept.{accepted, between, names_accepted, texts_accepted}
use mysql_seed.Generate.State.{GenerateParseState, DbSpec}
use mysql_seed.Generate.Spec.{Outcome, finished, faulted, out_of_fuel, generate_dispatch}
use mysql_seed.Generate.Valid.{IsDb, GeneratorTally}
use mysql_seed.Generate.Valid.Good.End.{generate_dispatch-ends, generate_dispatch-valid}

parse_uint-within_example : parse_uint (codes "0042") ≡ within (2 ^ 64 - 1) (codes "0042")
parse_uint-within_example = parse_uint-within (codes "0042")

parse_int-signed_within_example : parse_int (codes "-128") ≡ signed_within (codes "-128")
parse_int-signed_within_example = parse_int-signed_within (codes "-128")

three_digits : length (codes "xxx") ≡ uint_digit_count 407
unfolding uint_digit_count
three_digits = refl

parse_uint-put_uint_example :
    (ds : List ℕ) × (put_uint (codes "bxxxaa") 4 407 ≡ (codes "b" ++ (ds ++ codes "aa"), 1))
    × (parse_uint (turn ds []) ≡ some 407)
parse_uint-put_uint_example =
    parse_uint-put_uint (codes "b") (codes "xxx") (codes "aa") 407 (omega arith) three_digits

-- the greatest numbers are read, and the next ones are not
parse_limits :
    (parse_uint (codes "18446744073709551615") ≡ some 18446744073709551615)
    × (parse_uint (codes "18446744073709551616") ≡ none)
    × (parse_uint (codes "1a") ≡ none)
    × (parse_int (codes "9223372036854775808") ≡ none)
    × (parse_int (codes "-9223372036854775808") ≡ some 9223372036854775808)
unfolding parse_uint parse_int
parse_limits = (refl, refl, refl, refl, refl)

-- "café" in UTF-8
abbrev cafe : List ℕ
cafe = b'c' ∷ b'a' ∷ b'f' ∷ 195 ∷ 169 ∷ []

names_accepted_example :
    let spec = if between 1 63 (code_points 0 cafe) then some (length cafe) else none in
    (accepted (parse_db_name cafe) ≡ spec)
    × (accepted (parse_tbl_name cafe) ≡ spec)
    × (accepted (parse_col_name cafe) ≡ spec)
names_accepted_example = names_accepted cafe (omega arith)

texts_accepted_example :
    (accepted (parse_base_string cafe)
      ≡ (if between 0 246 (code_points 0 cafe) then some (length cafe) else none))
    × (accepted (parse_fixed_string cafe)
        ≡ (if between 0 254 (code_points 0 cafe) then some (length cafe + 1) else none))
texts_accepted_example = texts_accepted cafe (omega arith)

flag_match_lem_example :
    flag_match (codes "-d-database") b'd' (codes "database")
    ≡ strings_equal (codes "-d-database") (codes "-d")
      || strings_equal (codes "-d-database") (codes "--database")
      || strings_equal (codes "-d-database") (codes "-d-database")
flag_match_lem_example = flag_match_lem (codes "-d-database") b'd' (codes "database") (omega arith)

flag_match_next-splits_example :
    let rest = flag_match_next (codes "x" ∷ codes "-d" ∷ []) b'd' (codes "database") in
    (skipped : List Arg) × (skipped ++ rest ≡ codes "x" ∷ codes "-d" ∷ [])
    × (flag_match_count skipped b'd' (codes "database") ≡ 0)
    × Begins rest b'd' (codes "database")
flag_match_next-splits_example =
    flag_match_next-splits (codes "x" ∷ codes "-d" ∷ []) b'd' (codes "database")

abbrev words : List String → List Arg
words = map codes

-- one database with one table of two columns
abbrev shop : List Arg
shop = words (
    "-d" ∷ "shop" ∷ "-t" ∷ "users" ∷ "1000" ∷ "-c" ∷ "id" ∷ "-u" ∷ "--unique" ∷ "-c" ∷ "city" ∷ "-s"
    ∷ "-nf" ∷ "-g" ∷ "10" ∷ "-l" ∷ [])

generate_dispatch-ends_example :
    (generate_dispatch shop ≢ faulted) × (generate_dispatch shop ≢ out_of_fuel)
generate_dispatch-ends_example = generate_dispatch-ends shop

abbrev shop_state : GenerateParseState
shop_state = elim (generate_dispatch shop) [ finished s ↦ s | _ ↦ initial_state ]

shop_finished : generate_dispatch shop ≡ finished shop_state
unfolding generate_dispatch run parse_db_specs parse_first_db_spec parse_first_tbl_spec
    parse_first_col_spec_safe parse_first_col_spec parse_next_col_spec parse_next_tbl_spec
    parse_next_db_spec parse_col_type switch spec_flag expect given generate_parse_error error_stop
    generate_parse_complete tables_complete close_spec parse_column_complete parse_grp_spec
    grp_spec_close parse_valid_complete parse_table_complete column column_group counts_up
    database_counter_init generator_counter_update parse_group parse_plain parse_argument
    parse_qualifier parse_u_integer_qualifier u_integer_cases parse_string_qualifier string_cases
    parse_integer_qualifier integer_cases parse_integer_random integer_random_cases
    parse_integer_random_range signed_lt parse_row_count parse_grp_count parse_uint parse_int
    do_parse_uint parse_significant scan_digits sum_back sum_digits ten_pow_map string_compare
    strings_equal negate flag_match short_flag_match long_flag_match flag_match_next parse_db_name
    parse_tbl_name parse_col_name name_loop utf8_width utf8_rest utf8_head_width
shop_finished = refl

generate_dispatch-valid_example :
    Every IsDb shop_state.valid
    × GeneratorTally shop_state.generator shop_state.valid
    × (shop_state.terminated ≡ true)
generate_dispatch-valid_example = generate_dispatch-valid shop shop_state shop_finished

-- the names of the valid databases, two counters and whether the exit status is EXIT_FAILURE
abbrev summary : Outcome → Option (List Arg × ℕ × ℕ × Bool)
summary (finished s) = some (
  map (λ (d : DbSpec). d.name) s.valid,
  s.generator.columns,
  s.generator.counter_upto,
  s.exit_failure,
)
summary _ = none

-- a database with one column, of the type and the qualifier `type`
abbrev database : String → List String → List Arg
database name type = words ("-d" ∷ name ∷ "-t" ∷ "t" ∷ "1000" ∷ "-c" ∷ "c" ∷ []) ++ words type

-- A database that is refused does not harm the one behind it, but a range whose end lies below its
-- start ends the parsing.
refused_databases :
    (summary (generate_dispatch shop) ≡ some (words ("shop" ∷ []), 2, 1000, false))
    × (summary (
          generate_dispatch
            (database "a" ("-i" ∷ "-r" ∷ "-r" ∷ "1" ∷ "x" ∷ []) ++ database "b" ("-i" ∷ [])))
        ≡ some (words ("b" ∷ []), 1, 1000, true))
    × (summary (
          generate_dispatch
            (database "a" ("-i" ∷ "-r" ∷ "-r" ∷ "2" ∷ "1" ∷ []) ++ database "b" ("-i" ∷ [])))
        ≡ some ([], 0, 0, true))
unfolding generate_dispatch run parse_db_specs parse_first_db_spec parse_first_tbl_spec
    parse_first_col_spec_safe parse_first_col_spec parse_next_col_spec parse_next_tbl_spec
    parse_next_db_spec parse_col_type switch spec_flag expect given generate_parse_error error_stop
    generate_parse_complete tables_complete close_spec parse_column_complete parse_grp_spec
    grp_spec_close parse_valid_complete parse_table_complete column column_group counts_up
    database_counter_init generator_counter_update parse_group parse_plain parse_argument
    parse_qualifier parse_u_integer_qualifier u_integer_cases parse_string_qualifier string_cases
    parse_integer_qualifier integer_cases parse_integer_random integer_random_cases
    parse_integer_random_range signed_lt parse_row_count parse_grp_count parse_uint parse_int
    do_parse_uint parse_significant scan_digits sum_back sum_digits ten_pow_map string_compare
    strings_equal negate flag_match short_flag_match long_flag_match flag_match_next parse_db_name
    parse_tbl_name parse_col_name name_loop utf8_width utf8_rest utf8_head_width
refused_databases = (refl, refl, refl)
