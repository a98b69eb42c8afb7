-- ===== src/Generate/Valid/Good/ColType.antt =====
-- What the types of the columns share makes progress.
use mysql_seed.Generate.Flag.{Arg}
use mysql_seed.Generate.Node.{
  Node, error_grp_spec_for_fixed_data, parse_column_complete, error_stop, close_spec,
}
use mysql_seed.Generate.State.{GenerateParseState, Kind, column, column_group}
use mysql_seed.Generate.ColType.{parse_group, parse_plain, parse_argument, parse_qualifier}
use mysql_seed.Generate.Valid.{Open}
use mysql_seed.Generate.Valid.Change.{column-Closed, column_group-Closed}
use mysql_seed.Generate.Valid.Good.Close.{
  Good-complete, Good-close, Good-column_complete, Good-fixed, Good-grp_spec,
}
use mysql_seed.Generate.Valid.Good.{Good, Good-given, Good-error, Good-stop}
use mysql_seed.Prelude.{
  ℕ, ◌<◌, Bool, true, false, Option, List, [], ◌∷◌, arith, if◌then◌else◌, length,
}

-- A node that is called with an open column.
abbrev pub GoodNode : Node → Type 0
GoodNode node =
    (n : ℕ) (args : List Arg) (s : GenerateParseState)
    → 0 < length args
    → length args < n
    → Open s
    → Good n (node args s)

pub Good-group : (kind : Kind) → GoodNode (parse_group kind)
unfolding parse_group
Good-group kind n =
    Good-grp_spec (column_group kind) (λ s (h, a, b). column_group-Closed kind s h a b)

pub Good-plain : (kind : Kind) → GoodNode (parse_plain kind)
unfolding parse_plain
Good-plain kind n args s p l h =
    Good-column_complete (column kind) (parse_group kind) args s p l (column-Closed kind s h)
      h.0.0.0 (λ rest p l. Good-group kind n rest s p l h)

pub Good-fixed_kind :
    (kind : Kind) → GoodNode (parse_column_complete (column kind) error_grp_spec_for_fixed_data)
Good-fixed_kind kind n args s p l h =
    Good-column_complete (column kind) error_grp_spec_for_fixed_data args s p l
      (column-Closed kind s h) h.0.0.0 (λ rest p l. Good-fixed rest s l h.0.0.0)

pub Good-argument {ℓ} :
    {A : Type ℓ} (read : Arg → Option A) (rest : A → Node)
    → ((a : A) → GoodNode (rest a))
    → GoodNode (parse_argument read rest)
unfolding parse_argument
Good-argument read rest g n [] s p l h = absurd (omega arith)
Good-argument read rest g n (_ ∷ []) s p l h = Good-stop s h.0.0.0
Good-argument read rest g n (_ ∷ arg ∷ args) s p l h =
    Good-given n (read arg) _ _ (Good-error (arg ∷ args) s (omega arith) h.0.0.0)
      (λ a _. g a n (arg ∷ args) s (omega arith) (omega arith) h)

pub Good-qualifier :
    (kind : Kind) (cases : Arg → Node)
    → ((arg : Arg) → GoodNode (cases arg))
    → GoodNode (parse_qualifier kind cases)
unfolding parse_qualifier
Good-qualifier kind cases g n [] s p l h = absurd (omega arith)
Good-qualifier kind cases g n (_ ∷ []) s p l h = Good-complete _ (column-Closed kind s h)
Good-qualifier kind cases g n (_ ∷ arg ∷ args) s p l h =
    g arg n (arg ∷ args) s (omega arith) (omega arith) h

pub Good-default : (kind : Kind) (arg : Arg) → GoodNode (close_spec (column kind) arg)
Good-default kind arg n args s p l h =
    Good-close (column kind) arg args s p l (column-Closed kind s h) h.0.0.0

pub Good-stop_if :
    (b : Bool) (node : Node)
    → GoodNode node
    → GoodNode (λ args s. if b then error_stop s else node args s)
Good-stop_if true node g n args s p l h = Good-stop s h.0.0.0
Good-stop_if false node g n args s p l h = g n args s p l h
