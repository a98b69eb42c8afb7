-- ===== src/Generate/Valid/Good/Text.antt =====
-- The qualifiers of strings, timestamps and datetimes make progress.
use mysql_seed.Generate.Valid.Good.ColType.{
  GoodNode, Good-group, Good-plain, Good-fixed_kind, Good-argument, Good-qualifier, Good-default,
}
use mysql_seed.Generate.Flag.{Arg}
use mysql_seed.Generate.Node.{join_spec}
use mysql_seed.Generate.State.{
  string_default, string_unique, string_fixed, string_uuid, string_hash, string_names_first,
  string_names_last, string_names_full, timestamp_default, timestamp_unique, timestamp_fixed,
  datetime_default, datetime_unique, datetime_fixed,
}
use mysql_seed.Generate.ColType.Text.{
  parse_string_unique, parse_string_fixed, parse_string_hash, string_cases, parse_string_qualifier,
}
use mysql_seed.Generate.ColType.Time.{
  timestamp_cases, parse_timestamp_qualifier, datetime_cases, parse_datetime_qualifier,
}
use mysql_seed.Generate.Valid.Good.{good_join, Good-switch}

Good-string_unique : GoodNode parse_string_unique
unfolding parse_string_unique
Good-string_unique = Good-argument _ _ λ base. Good-plain (string_unique base)

Good-string_fixed : GoodNode parse_string_fixed
unfolding parse_string_fixed
Good-string_fixed = Good-argument _ _ λ fixed. Good-fixed_kind (string_fixed fixed)

Good-string_hash : GoodNode parse_string_hash
unfolding parse_string_hash
Good-string_hash = Good-argument _ _ λ l. Good-plain (string_hash l)

Good-join : GoodNode join_spec
Good-join n args s p l h = good_join args s p l h

Good-string-cases : (arg : Arg) → GoodNode (string_cases arg)
unfolding string_cases
Good-string-cases arg n args s p l h =
    Good-switch n arg _ _
      (
        Good-group string_default n args s p l h,
        (
          Good-string_unique n args s p l h,
          (
            Good-plain string_uuid n args s p l h,
            (
              Good-string_fixed n args s p l h,
              (
                Good-string_hash n args s p l h,
                (
                  Good-plain string_names_first n args s p l h,
                  (
                    Good-plain string_names_last n args s p l h,
                    (Good-plain string_names_full n args s p l h, (Good-join n args s p l h, tt)),
                  ),
                ),
              ),
            ),
          ),
        ),
      )
      (Good-default string_default arg n args s p l h)

pub Good-string_qualifier : GoodNode parse_string_qualifier
unfolding parse_string_qualifier
Good-string_qualifier = Good-qualifier string_default string_cases Good-string-cases

Good-timestamp-cases : (arg : Arg) → GoodNode (timestamp_cases arg)
unfolding timestamp_cases
Good-timestamp-cases arg n args s p l h =
    Good-switch n arg _ _
      (
        Good-group timestamp_default n args s p l h,
        (
          Good-fixed_kind timestamp_fixed n args s p l h,
          (Good-plain timestamp_unique n args s p l h, tt),
        ),
      )
      (Good-default timestamp_default arg n args s p l h)

pub Good-timestamp_qualifier : GoodNode parse_timestamp_qualifier
unfolding parse_timestamp_qualifier
Good-timestamp_qualifier = Good-qualifier timestamp_default timestamp_cases Good-timestamp-cases

Good-datetime-cases : (arg : Arg) → GoodNode (datetime_cases arg)
unfolding datetime_cases
Good-datetime-cases arg n args s p l h =
    Good-switch n arg _ _
      (
        Good-group datetime_default n args s p l h,
        (
          Good-fixed_kind datetime_fixed n args s p l h,
          (Good-plain datetime_unique n args s p l h, tt),
        ),
      )
      (Good-default datetime_default arg n args s p l h)

pub Good-datetime_qualifier : GoodNode parse_datetime_qualifier
unfolding parse_datetime_qualifier
Good-datetime_qualifier = Good-qualifier datetime_default datetime_cases Good-datetime-cases
