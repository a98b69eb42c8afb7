-- ===== src/Generate/ColType/Text.antt =====
-- mysql_seed_generate.h: the qualifiers of strings.
use mysql_seed.Generate.Flag.{Arg}
use mysql_seed.Generate.Count.{parse_hash_length}
use mysql_seed.Generate.Name.{NameResult, named, parse_base_string, parse_fixed_string}
use mysql_seed.Generate.Node.{
  Node, join_spec, switch, on_flag, close_spec, parse_column_complete,
  error_grp_spec_for_fixed_data,
}
use mysql_seed.Generate.State.{
  column, string_default, string_unique, string_fixed, string_uuid, string_hash, string_names_first,
  string_names_last, string_names_full,
}
use mysql_seed.Generate.ColType.{parse_group, parse_plain, parse_argument, parse_qualifier}
use mysql_seed.Prelude.{Option, none, some, [], ◌∷◌}

-- the text where it is accepted
abbrev pub text_of : NameResult → Arg → Option Arg
text_of (named length) arg = some arg
text_of _ arg = none

unfoldable pub parse_string_unique : Node
parse_string_unique =
    parse_argument (λ arg. text_of (parse_base_string arg) arg)
      λ base. parse_plain (string_unique base)

unfoldable pub parse_string_fixed : Node
parse_string_fixed =
    parse_argument (λ arg. text_of (parse_fixed_string arg) arg)
      λ fixed. parse_column_complete (column (string_fixed fixed)) error_grp_spec_for_fixed_data

unfoldable pub parse_string_hash : Node
parse_string_hash = parse_argument parse_hash_length λ length. parse_plain (string_hash length)

unfoldable pub string_cases : Arg → Node
unfolding parse_string_unique parse_string_fixed parse_string_hash
string_cases arg args s =
    switch arg
      (on_flag "g" "group" (parse_group string_default args s)
        ∷ on_flag "u" "unique" (parse_string_unique args s)
        ∷ on_flag "uu" "uuid" (parse_plain string_uuid args s)
        ∷ on_flag "f" "fixed" (parse_string_fixed args s)
        ∷ on_flag "h" "hash" (parse_string_hash args s)
        ∷ on_flag "n1" "names-first" (parse_plain string_names_first args s)
        ∷ on_flag "nl" "names-last" (parse_plain string_names_last args s)
        ∷ on_flag "nf" "names-full" (parse_plain string_names_full args s)
        ∷ on_flag "j" "join" (join_spec args s)
        ∷ [])
      (close_spec (column string_default) arg args s)

unfoldable pub parse_string_qualifier : Node
unfolding string_cases
parse_string_qualifier = parse_qualifier string_default string_cases
