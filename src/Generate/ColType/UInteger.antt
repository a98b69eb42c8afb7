-- ===== src/Generate/ColType/UInteger.antt =====
-- mysql_seed_generate.h: the qualifiers of unsigned integers.
use mysql_seed.Decimal.Parse.{parse_uint}
use mysql_seed.Generate.Flag.{Arg}
use mysql_seed.Generate.Node.{
  Node, switch, on_flag, close_spec, parse_column_complete, error_grp_spec_for_fixed_data,
  error_stop,
}
use mysql_seed.Generate.State.{
  column, u_integer_default, u_integer_unique, u_integer_fixed, u_integer_random_default,
  u_integer_random_from, u_integer_random_upto, u_integer_random_range,
}
use mysql_seed.Generate.ColType.{parse_group, parse_plain, parse_argument, parse_qualifier}
use mysql_seed.Prelude.{[], ◌∷◌, if◌then◌else◌, ltb}

unfoldable pub parse_u_integer_fixed : Node
parse_u_integer_fixed =
    parse_argument parse_uint λ parsed.
      parse_column_complete (column (u_integer_fixed parsed)) error_grp_spec_for_fixed_data

unfoldable pub parse_u_integer_random_from : Node
parse_u_integer_random_from =
    parse_argument parse_uint λ min. parse_plain (u_integer_random_from min)

unfoldable pub parse_u_integer_random_upto : Node
parse_u_integer_random_upto =
    parse_argument parse_uint λ max. parse_plain (u_integer_random_upto max)

-- error_random_range_max_lt_min ends the parsing
unfoldable pub parse_u_integer_random_range : Node
parse_u_integer_random_range = parse_argument parse_uint λ min.
    parse_argument parse_uint λ max args s.
      if ltb max min then error_stop s else parse_plain (u_integer_random_range min max) args s

unfoldable pub u_integer_random_cases : Arg → Node
unfolding parse_u_integer_random_from parse_u_integer_random_upto parse_u_integer_random_range
u_integer_random_cases arg args s =
    switch arg
      (on_flag "g" "group" (parse_group u_integer_random_default args s)
        ∷ on_flag "f" "from" (parse_u_integer_random_from args s)
        ∷ on_flag "u" "upto" (parse_u_integer_random_upto args s)
        ∷ on_flag "r" "range" (parse_u_integer_random_range args s)
        ∷ [])
      (close_spec (column u_integer_random_default) arg args s)

unfoldable pub parse_u_integer_random : Node
unfolding u_integer_random_cases
parse_u_integer_random = parse_qualifier u_integer_random_default u_integer_random_cases

unfoldable pub u_integer_cases : Arg → Node
unfolding parse_u_integer_fixed parse_u_integer_random
u_integer_cases arg args s =
    switch arg
      (on_flag "g" "group" (parse_group u_integer_default args s)
        ∷ on_flag "u" "unique" (parse_plain u_integer_unique args s)
        ∷ on_flag "f" "fixed" (parse_u_integer_fixed args s)
        ∷ on_flag "r" "random" (parse_u_integer_random args s)
        ∷ [])
      (close_spec (column u_integer_default) arg args s)

unfoldable pub parse_u_integer_qualifier : Node
unfolding u_integer_cases
parse_u_integer_qualifier = parse_qualifier u_integer_default u_integer_cases
