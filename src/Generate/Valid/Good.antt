-- ===== src/Generate/Valid/Good.antt =====
-- Calls that make progress: on what the nodes that close a column do next.
pub mod Close
pub mod ColType
pub mod Number
pub mod Text
pub mod Spec
pub mod End
use mysql_seed.Decimal.Parse.{parse_uint}
use mysql_seed.Generate.Flag.{Arg, flag_match, flag_match_next}
use mysql_seed.Generate.Count.{upto_max, bounded_count, parse_row_count, parse_grp_count}
use mysql_seed.Generate.Node.{
  Next, next_col, next_tbl, next_db, join_spec, done, fault, Node, Case, spec_flag, switch, given,
  generate_parse_error, error_stop, generate_parse_complete, tables_complete, close_spec,
  parse_column_complete, error_multiple_grp_specs, error_grp_spec_for_fixed_data, set_partition,
  set_grp_count, grp_spec_close, parse_grp_spec,
}
use mysql_seed.Generate.State.{
  GenerateParseState, Partition, even, linear, Kind, column, column_group, parse_valid_complete,
}
use mysql_seed.Generate.Valid.{Idle, InTbl, Open, Closed, TblDone}
use mysql_seed.Generate.Valid.Change.{
  set_partition-Open, set_grp_count-Open, column-Closed, column_group-Closed,
}
use mysql_seed.Generate.Valid.Table.{tables_complete-TblDone, parse_valid_complete-Idle}
use mysql_seed.Prelude.{
  ℕ, zero, suc, ◌+◌, ◌≤◌, ◌<◌, ◌≡◌, refl, sym, ap, ◌∙◌, ◌⊎◌, inl, inr, Bool, true, false, Option,
  none, some, List, [], ◌∷◌, arith, if◌then◌else◌, length, codes, Bool-cases, Option-cases, ◌>>=◌,
  ltb, ◌==◌, Every,
}

-- The call is made with fewer than `n` arguments, and with one at least where it reads it; the
-- specifications and the counters are as they should be, and the list of the valid databases is
-- terminated at the end.
pub data Good (n : ℕ) : Next → Type 0 where
  good_col :
      (args : List Arg) (s : GenerateParseState)
      → 0 < length args
      → length args < n
      → Closed s
      → Good n (next_col args s)
  good_tbl :
      (args : List Arg) (s : GenerateParseState)
      → 0 < length args
      → length args < n
      → TblDone s
      → Good n (next_tbl args s)
  good_db :
      (args : List Arg) (s : GenerateParseState)
      → length args < n
      → Idle s
      → Good n (next_db args s)
  good_join :
      (args : List Arg) (s : GenerateParseState)
      → 0 < length args
      → length args < n
      → Open s
      → Good n (join_spec args s)
  good_done : (s : GenerateParseState) → Idle s → s.terminated ≡ true → Good n (done s)

abbrev pub GoodCase : ℕ → Case → Type 0
GoodCase n (short, long, next) = Good n next

pub Good-switch :
    (n : ℕ) (arg : Arg) (cases : List Case) (otherwise : Next)
    → Every (GoodCase n) cases
    → Good n otherwise
    → Good n (switch arg cases otherwise)
unfolding switch
Good-switch n arg [] otherwise h d = d
Good-switch n arg ((short, long, next) ∷ cases) otherwise (g, h) d =
    elim (Bool-cases (spec_flag arg short long)) [
      | inl e ↦ rw e g
      | inr e ↦ rw e (Good-switch n arg cases otherwise h d)
    ]

pub Good-given {ℓ} :
    {A : Type ℓ} (n : ℕ) (o : Option A) (error : Next) (rest : A → Next)
    → Good n error
    → ((a : A) → o ≡ some a → Good n (rest a))
    → Good n (given o error rest)
unfolding given
Good-given n none error rest g h = g
Good-given n (some a) error rest g h = h a refl

length-flag_match_next :
    (args : List Arg) (c : ℕ) (long : List ℕ) → length (flag_match_next args c long) ≤ length args
unfolding flag_match_next
length-flag_match_next [] c long = omega arith
length-flag_match_next (arg ∷ args) c long = ground (arith, length-flag_match_next args c long)

bounded_count-bounds :
    (most : ℕ) (o : Option ℕ) (r : ℕ)
    → (o >>= λ parsed. bounded_count most parsed) ≡ some r
    → (0 < r) × (r ≤ most)
bounded_count-bounds most none r e = cc
bounded_count-bounds most (some p) r e = ground arith

pub parse_row_count-bounds :
    (arg : Arg) (r : ℕ) → parse_row_count arg ≡ some r → (0 < r) × (r ≤ upto_max)
unfolding parse_row_count
parse_row_count-bounds arg = bounded_count-bounds upto_max (parse_uint arg)

pub parse_grp_count-bounds :
    (rows : ℕ) (arg : Arg) (r : ℕ) → parse_grp_count rows arg ≡ some r → (0 < r) × (r ≤ rows)
unfolding parse_grp_count
parse_grp_count-bounds rows arg = bounded_count-bounds rows (parse_uint arg)

module _ {n : ℕ} where
  pub Good-error :
      (args : List Arg) (s : GenerateParseState)
      → length args < n
      → Idle s
      → Good n (generate_parse_error args s)
  unfolding generate_parse_error
  Good-error [] s l h = good_db [] _ l h
  Good-error (arg ∷ args) s l h =
      good_db _ _ (omega (arith, length-flag_match_next args b'd' (codes "database"))) h

  pub Good-stop : (s : GenerateParseState) → Idle s → Good n (error_stop s)
  unfolding error_stop
  Good-stop s h = good_done _ h refl
