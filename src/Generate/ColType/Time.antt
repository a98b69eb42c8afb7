-- ===== src/Generate/ColType/Time.antt =====
-- mysql_seed_generate.h: the qualifiers of timestamps and datetimes.
use mysql_seed.Generate.Flag.{Arg}
use mysql_seed.Generate.Node.{
  Node, switch, on_flag, close_spec, parse_column_complete, error_grp_spec_for_fixed_data,
}
use mysql_seed.Generate.State.{
  column, timestamp_default, timestamp_unique, timestamp_fixed, datetime_default, datetime_unique,
  datetime_fixed,
}
use mysql_seed.Generate.ColType.{parse_group, parse_plain, parse_qualifier}
use mysql_seed.Prelude.{[], ◌∷◌}

unfoldable pub timestamp_cases : Arg → Node
timestamp_cases arg args s =
    switch arg
      (on_flag "g" "group" (parse_group timestamp_default args s)
        ∷ on_flag "f" "fixed"
            (parse_column_complete (column timestamp_fixed) error_grp_spec_for_fixed_data args s)
        ∷ on_flag "u" "unique" (parse_plain timestamp_unique args s)
        ∷ [])
      (close_spec (column timestamp_default) arg args s)

unfoldable pub parse_timestamp_qualifier : Node
unfolding timestamp_cases
parse_timestamp_qualifier = parse_qualifier timestamp_default timestamp_cases

unfoldable pub datetime_cases : Arg → Node
datetime_cases arg args s =
    switch arg
      (on_flag "g" "group" (parse_group datetime_default args s)
        ∷ on_flag "f" "fixed"
            (parse_column_complete (column datetime_fixed) error_grp_spec_for_fixed_data args s)
        ∷ on_flag "u" "unique" (parse_plain datetime_unique args s)
        ∷ [])
      (close_spec (column datetime_default) arg args s)

unfoldable pub parse_datetime_qualifier : Node
unfolding datetime_cases
parse_datetime_qualifier = parse_qualifier datetime_default datetime_cases
