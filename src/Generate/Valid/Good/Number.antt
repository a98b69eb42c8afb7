-- ===== src/Generate/Valid/Good/Number.antt =====
-- The qualifiers of integers make progress.
use mysql_seed.Generate.Valid.Good.ColType.{
  GoodNode, Good-group, Good-plain, Good-fixed_kind, Good-argument, Good-qualifier, Good-default,
  Good-stop_if,
}
use mysql_seed.Decimal.Parse.{parse_int, parse_uint}
use mysql_seed.Generate.Flag.{Arg}
use mysql_seed.Generate.State.{
  integer_default, integer_unique, integer_fixed, integer_random_default, integer_random_from,
  integer_random_upto, integer_random_range, u_integer_default, u_integer_unique, u_integer_fixed,
  u_integer_random_default, u_integer_random_from, u_integer_random_upto, u_integer_random_range,
}
use mysql_seed.Generate.ColType.Integer.{
  signed_lt, parse_integer_fixed, parse_integer_random_from, parse_integer_random_upto,
  parse_integer_random_range, integer_random_cases, parse_integer_random, integer_cases,
  parse_integer_qualifier,
}
use mysql_seed.Generate.ColType.UInteger.{
  parse_u_integer_fixed, parse_u_integer_random_from, parse_u_integer_random_upto,
  parse_u_integer_random_range, u_integer_random_cases, parse_u_integer_random, u_integer_cases,
  parse_u_integer_qualifier,
}
use mysql_seed.Generate.Valid.Good.{Good-switch}
use mysql_seed.Prelude.{ltb}

Good-integer_random_from : GoodNode parse_integer_random_from
unfolding parse_integer_random_from
Good-integer_random_from = Good-argument parse_int _ λ min. Good-plain (integer_random_from min)

Good-integer_random_upto : GoodNode parse_integer_random_upto
unfolding parse_integer_random_upto
Good-integer_random_upto = Good-argument parse_int _ λ max. Good-plain (integer_random_upto max)

Good-integer_random_range : GoodNode parse_integer_random_range
unfolding parse_integer_random_range
Good-integer_random_range = Good-argument parse_int _ λ min.
    Good-argument parse_int _
      λ max. Good-stop_if (signed_lt max min) _ (Good-plain (integer_random_range min max))

Good-integer_fixed : GoodNode parse_integer_fixed
unfolding parse_integer_fixed
Good-integer_fixed = Good-argument parse_int _ λ parsed. Good-fixed_kind (integer_fixed parsed)

Good-integer_random-cases : (arg : Arg) → GoodNode (integer_random_cases arg)
unfolding integer_random_cases
Good-integer_random-cases arg n args s p l h =
    Good-switch n arg _ _
      (
        Good-group integer_random_default n args s p l h,
        (
          Good-integer_random_from n args s p l h,
          (Good-integer_random_upto n args s p l h, (Good-integer_random_range n args s p l h, tt)),
        ),
      )
      (Good-default integer_random_default arg n args s p l h)

Good-integer_random : GoodNode parse_integer_random
unfolding parse_integer_random
Good-integer_random =
    Good-qualifier integer_random_default integer_random_cases Good-integer_random-cases

Good-integer-cases : (arg : Arg) → GoodNode (integer_cases arg)
unfolding integer_cases
Good-integer-cases arg n args s p l h =
    Good-switch n arg _ _
      (
        Good-group integer_default n args s p l h,
        (
          Good-plain integer_unique n args s p l h,
          (Good-integer_fixed n args s p l h, (Good-integer_random n args s p l h, tt)),
        ),
      )
      (Good-default integer_default arg n args s p l h)

pub Good-integer_qualifier : GoodNode parse_integer_qualifier
unfolding parse_integer_qualifier
Good-integer_qualifier = Good-qualifier integer_default integer_cases Good-integer-cases

Good-u_integer_random_from : GoodNode parse_u_integer_random_from
unfolding parse_u_integer_random_from
Good-u_integer_random_from =
    Good-argument parse_uint _ λ min. Good-plain (u_integer_random_from min)

Good-u_integer_random_upto : GoodNode parse_u_integer_random_upto
unfolding parse_u_integer_random_upto
Good-u_integer_random_upto =
    Good-argument parse_uint _ λ max. Good-plain (u_integer_random_upto max)

Good-u_integer_random_range : GoodNode parse_u_integer_random_range
unfolding parse_u_integer_random_range
Good-u_integer_random_range = Good-argument parse_uint _ λ min.
    Good-argument parse_uint _
      λ max. Good-stop_if (ltb max min) _ (Good-plain (u_integer_random_range min max))

Good-u_integer_fixed : GoodNode parse_u_integer_fixed
unfolding parse_u_integer_fixed
Good-u_integer_fixed = Good-argument parse_uint _ λ parsed. Good-fixed_kind (u_integer_fixed parsed)

Good-u_integer_random-cases : (arg : Arg) → GoodNode (u_integer_random_cases arg)
unfolding u_integer_random_cases
Good-u_integer_random-cases arg n args s p l h =
    Good-switch n arg _ _
      (
        Good-group u_integer_random_default n args s p l h,
        (
          Good-u_integer_random_from n args s p l h,
          (
            Good-u_integer_random_upto n args s p l h,
            (Good-u_integer_random_range n args s p l h, tt),
          ),
        ),
      )
      (Good-default u_integer_random_default arg n args s p l h)

Good-u_integer_random : GoodNode parse_u_integer_random
unfolding parse_u_integer_random
Good-u_integer_random =
    Good-qualifier u_integer_random_default u_integer_random_cases Good-u_integer_random-cases

Good-u_integer-cases : (arg : Arg) → GoodNode (u_integer_cases arg)
unfolding u_integer_cases
Good-u_integer-cases arg n args s p l h =
    Good-switch n arg _ _
      (
        Good-group u_integer_default n args s p l h,
        (
          Good-plain u_integer_unique n args s p l h,
          (Good-u_integer_fixed n args s p l h, (Good-u_integer_random n args s p l h, tt)),
        ),
      )
      (Good-default u_integer_default arg n args s p l h)

pub Good-u_integer_qualifier : GoodNode parse_u_integer_qualifier
unfolding parse_u_integer_qualifier
Good-u_integer_qualifier = Good-qualifier u_integer_default u_integer_cases Good-u_integer-cases
