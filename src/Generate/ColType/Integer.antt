-- ===== src/Generate/ColType/Integer.antt =====
-- mysql_seed_generate.h: the qualifiers of signed integers. A number is kept as its 64 bits.
use mysql_seed.Decimal.Parse.{parse_int}
use mysql_seed.Generate.Flag.{Arg}
use mysql_seed.Generate.Node.{
  Node, switch, on_flag, close_spec, parse_column_complete, error_grp_spec_for_fixed_data,
  error_stop,
}
use mysql_seed.Generate.State.{
  column, integer_default, integer_unique, integer_fixed, integer_random_default,
  integer_random_from, integer_random_upto, integer_random_range,
}
use mysql_seed.Generate.ColType.{parse_group, parse_plain, parse_argument, parse_qualifier}
use mysql_seed.Prelude.{ℕ, ◌+◌, ◌%◌, ◌^◌, Bool, [], ◌∷◌, if◌then◌else◌, ltb}

-- `a < b` on intmax_t
unfoldable pub signed_lt : ℕ → ℕ → Bool
signed_lt a b = ltb ((a + 2 ^ 63) % 2 ^ 64) ((b + 2 ^ 63) % 2 ^ 64)

unfoldable pub parse_integer_fixed : Node
parse_integer_fixed =
    parse_argument parse_int
      λ parsed. parse_column_complete (column (integer_fixed parsed)) error_grp_spec_for_fixed_data

unfoldable pub parse_integer_random_from : Node
parse_integer_random_from = parse_argument parse_int λ min. parse_plain (integer_random_from min)

unfoldable pub parse_integer_random_upto : Node
parse_integer_random_upto = parse_argument parse_int λ max. parse_plain (integer_random_upto max)

-- error_random_range_max_lt_min ends the parsing
unfoldable pub parse_integer_random_range : Node
parse_integer_random_range = parse_argument parse_int λ min. parse_argument parse_int λ max args s.
    if signed_lt max min then error_stop s else parse_plain (integer_random_range min max) args s

unfoldable pub integer_random_cases : Arg → Node
unfolding parse_integer_random_from parse_integer_random_upto parse_integer_random_range
integer_random_cases arg args s =
    switch arg
      (on_flag "g" "group" (parse_group integer_random_default args s)
        ∷ on_flag "f" "from" (parse_integer_random_from args s)
        ∷ on_flag "u" "upto" (parse_integer_random_upto args s)
        ∷ on_flag "r" "range" (parse_integer_random_range args s)
        ∷ [])
      (close_spec (column integer_random_default) arg args s)

unfoldable pub parse_integer_random : Node
unfolding integer_random_cases
parse_integer_random = parse_qualifier integer_random_default integer_random_cases

unfoldable pub integer_cases : Arg → Node
unfolding parse_integer_fixed parse_integer_random
integer_cases arg args s =
    switch arg
      (on_flag "g" "group" (parse_group integer_default args s)
        ∷ on_flag "u" "unique" (parse_plain integer_unique args s)
        ∷ on_flag "f" "fixed" (parse_integer_fixed args s)
        ∷ on_flag "r" "random" (parse_integer_random args s)
        ∷ [])
      (close_spec (column integer_default) arg args s)

unfoldable pub parse_integer_qualifier : Node
unfolding integer_cases
parse_integer_qualifier = parse_qualifier integer_default integer_cases
