-- ===== src/Generate/ColType.antt =====
-- mysql_seed_generate.h: the types of the columns and their qualifiers.
pub mod Integer
pub mod UInteger
pub mod Text
pub mod Time
use mysql_seed.Generate.Flag.{Arg}
use mysql_seed.Generate.Node.{
  Next, Node, done, fault, generate_parse_complete, parse_column_complete, parse_grp_spec,
  close_spec, error_stop, generate_parse_error, given,
}
use mysql_seed.Generate.State.{GenerateParseState, Kind, column, column_group}
use mysql_seed.Prelude.{Option, none, some, List, [], ◌∷◌}

-- The qualifiers that leave a column as they are given, and may be grouped: `parse_*` calls
-- parse_column_complete with `column_*`, and `parse_*_group` calls parse_grp_spec.
unfoldable pub parse_group : Kind → Node
parse_group kind = parse_grp_spec (column_group kind)

unfoldable pub parse_plain : Kind → Node
unfolding parse_group
parse_plain kind = parse_column_complete (column kind) (parse_group kind)

-- The qualifiers with one argument, from the flag on: it has to be there, and `rest` goes on
-- with what is read.
unfoldable pub parse_argument {ℓ} : {A : Type ℓ} → (Arg → Option A) → (rest : A → Node) → Node
unfolding error_stop generate_parse_error given
parse_argument read rest [] s = fault
parse_argument read rest (_ ∷ []) s = error_stop s
parse_argument read rest (_ ∷ arg ∷ args) s =
    given (read arg) (generate_parse_error (arg ∷ args) s) λ value. rest value (arg ∷ args) s

-- A qualifier, from the flag before it on: without one the column is set and the parsing is
-- complete; `cases` are those of its flags.
unfoldable pub parse_qualifier : Kind → (cases : Arg → Node) → Node
unfolding generate_parse_complete
parse_qualifier kind cases [] s = fault
parse_qualifier kind cases (_ ∷ []) s = generate_parse_complete (column kind s)
parse_qualifier kind cases (_ ∷ arg ∷ args) s = cases arg (arg ∷ args) s
