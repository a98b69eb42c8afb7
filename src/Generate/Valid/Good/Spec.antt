-- ===== src/Generate/Valid/Good/Spec.antt =====
-- The specifications of columns, tables and databases make progress.
use mysql_seed.Generate.Flag.{Arg, flag_match}
use mysql_seed.Generate.Count.{parse_row_count}
use mysql_seed.Generate.Name.{parse_db_name, parse_tbl_name, parse_col_name}
use mysql_seed.Generate.Node.{Next, expect}
use mysql_seed.Generate.State.{GenerateParseState}
use mysql_seed.Generate.Spec.{
  is_named, parse_col_type, parse_first_col_spec_safe, parse_first_col_spec, parse_next_col_spec,
  first_tbl, parse_first_tbl_spec, parse_next_tbl_spec, set_db_name, parse_first_db_spec,
  has_db_spec, parse_next_db_spec, parse_db_specs,
}
use mysql_seed.Generate.Valid.{Idle, Closed, TblDone, TblBegun}
use mysql_seed.Generate.Valid.Table.{
  next_col_of-Open, next_tbl_of-TblBegun, first_col-Open, first_tbl-Open,
}
use mysql_seed.Generate.Valid.Good.{
  Good, good_col, good_tbl, good_db, good_join, good_done, Good-switch, Good-given, Good-error,
  Good-stop, parse_row_count-bounds,
}
use mysql_seed.Generate.Valid.Good.ColType.{GoodNode}
use mysql_seed.Generate.Valid.Good.Number.{Good-integer_qualifier, Good-u_integer_qualifier}
use mysql_seed.Generate.Valid.Good.Text.{
  Good-string_qualifier, Good-timestamp_qualifier, Good-datetime_qualifier,
}
use mysql_seed.Prelude.{
  ℕ, ◌+◌, ◌≤◌, ◌<◌, ◌≡◌, refl, Bool, true, false, List, [], ◌∷◌, arith, length, leb→le, codes, inl,
  inr, Bool-cases,
}

Good-expect :
    (n : ℕ) (b : Bool) (error rest : Next)
    → Good n error
    → (b ≡ true → Good n rest)
    → Good n (expect b error rest)
unfolding expect
Good-expect n false error rest g h = g
Good-expect n true error rest g h = h refl

Good-col_type : GoodNode parse_col_type
unfolding parse_col_type
Good-col_type n [] s p l h = absurd (omega arith)
Good-col_type n (arg ∷ args) s p l h =
    Good-switch n arg _ _
      (
        Good-integer_qualifier n (arg ∷ args) s p l h,
        (
          Good-u_integer_qualifier n (arg ∷ args) s p l h,
          (
            Good-string_qualifier n (arg ∷ args) s p l h,
            (
              Good-timestamp_qualifier n (arg ∷ args) s p l h,
              (Good-datetime_qualifier n (arg ∷ args) s p l h, tt),
            ),
          ),
        ),
      )
      (Good-error (arg ∷ args) s l h.0.0.0)

Good-first_col_spec :
    (n : ℕ) (args : List Arg) (s : GenerateParseState)
    → 0 < length args
    → length args < n
    → TblBegun s
    → Good n (parse_first_col_spec args s)
unfolding parse_first_col_spec
Good-first_col_spec n [] s p l h = absurd (omega arith)
Good-first_col_spec n (flag ∷ []) s p l h =
    Good-expect n (flag_match flag b'c' (codes "column")) _ _ (Good-error (flag ∷ []) s l h.0.0)
      (λ _. Good-stop s h.0.0)
Good-first_col_spec n (flag ∷ name ∷ []) s p l h =
    Good-expect n (flag_match flag b'c' (codes "column")) _ _
      (Good-error (flag ∷ name ∷ []) s l h.0.0)
      λ _.
        Good-expect n (is_named (parse_col_name name)) _ _
          (Good-error (name ∷ []) s (omega arith) h.0.0) (λ _. Good-stop s h.0.0)
Good-first_col_spec n (flag ∷ name ∷ arg ∷ args) s p l h =
    Good-expect n (flag_match flag b'c' (codes "column")) _ _
      (Good-error (flag ∷ name ∷ arg ∷ args) s l h.0.0)
      λ _.
        Good-expect n (is_named (parse_col_name name)) _ _
          (Good-error (name ∷ arg ∷ args) s (omega arith) h.0.0)
          λ e.
            Good-col_type n (arg ∷ args) _ (omega arith) (omega arith) (first_col-Open name s h e)

pub Good-next_col_spec :
    (args : List Arg) (s : GenerateParseState)
    → 0 < length args
    → Closed s
    → Good (length args) (parse_next_col_spec args s)
unfolding parse_next_col_spec
Good-next_col_spec [] s p h = absurd (omega arith)
Good-next_col_spec (_ ∷ []) s p h = Good-stop s h.0.0.0
Good-next_col_spec (_ ∷ name ∷ []) s p h =
    Good-expect 2 (is_named (parse_col_name name)) _ _
      (Good-error (name ∷ []) s (omega arith) h.0.0.0) (λ _. Good-stop s h.0.0.0)
Good-next_col_spec (flag ∷ name ∷ arg ∷ args) s p h =
    let n = length (flag ∷ name ∷ arg ∷ args) in
    Good-expect n (is_named (parse_col_name name)) _ _
      (Good-error (name ∷ arg ∷ args) s (omega arith) h.0.0.0)
      λ e. Good-col_type n (arg ∷ args) _ (omega arith) (omega arith) (next_col_of-Open name s h e)

pub Good-next_tbl_spec :
    (args : List Arg) (s : GenerateParseState)
    → 0 < length args
    → TblDone s
    → Good (length args) (parse_next_tbl_spec args s)
unfolding parse_next_tbl_spec
Good-next_tbl_spec [] s p h = absurd (omega arith)
Good-next_tbl_spec (_ ∷ []) s p h = Good-stop s h.0.0
Good-next_tbl_spec (_ ∷ name ∷ []) s p h =
    Good-expect 2 (is_named (parse_tbl_name name)) _ _
      (Good-error (name ∷ []) s (omega arith) h.0.0) (λ _. Good-stop s h.0.0)
Good-next_tbl_spec (_ ∷ name ∷ rows ∷ []) s p h =
    Good-expect 3 (is_named (parse_tbl_name name)) _ _
      (Good-error (name ∷ rows ∷ []) s (omega arith) h.0.0)
      λ _.
        Good-given 3 (parse_row_count rows) _ _ (Good-error (rows ∷ []) s (omega arith) h.0.0)
          (λ _ _. Good-stop s h.0.0)
Good-next_tbl_spec (t ∷ name ∷ rows ∷ flag ∷ args) s p h =
    let n = length (t ∷ name ∷ rows ∷ flag ∷ args) in
    Good-expect n (is_named (parse_tbl_name name)) _ _
      (Good-error (name ∷ rows ∷ flag ∷ args) s (omega arith) h.0.0)
      λ e.
        Good-given n (parse_row_count rows) _ _
          (Good-error (rows ∷ flag ∷ args) s (omega arith) h.0.0)
          λ count c.
            let (positive, most) = parse_row_count-bounds rows count c in
            Good-first_col_spec n (flag ∷ args) _ (omega arith) (omega arith)
              (next_tbl_of-TblBegun name count s h e positive most)

Good-first_db_spec :
    (args : List Arg) (s : GenerateParseState)
    → 8 ≤ length args
    → Idle s
    → Good (length args) (parse_first_db_spec args s)
unfolding parse_first_db_spec parse_first_tbl_spec parse_first_col_spec_safe
Good-first_db_spec [] s l h = absurd (omega arith)
Good-first_db_spec (_ ∷ []) s l h = absurd (omega arith)
Good-first_db_spec (_ ∷ _ ∷ []) s l h = absurd (omega arith)
Good-first_db_spec (_ ∷ _ ∷ _ ∷ []) s l h = absurd (omega arith)
Good-first_db_spec (_ ∷ _ ∷ _ ∷ _ ∷ []) s l h = absurd (omega arith)
Good-first_db_spec (_ ∷ _ ∷ _ ∷ _ ∷ _ ∷ []) s l h = absurd (omega arith)
Good-first_db_spec (_ ∷ _ ∷ _ ∷ _ ∷ _ ∷ _ ∷ []) s l h = absurd (omega arith)
Good-first_db_spec (_ ∷ _ ∷ _ ∷ _ ∷ _ ∷ _ ∷ _ ∷ []) s l h = absurd (omega arith)
Good-first_db_spec (d ∷ db ∷ t ∷ tbl ∷ rows ∷ c ∷ col ∷ type ∷ args) s l h =
    let n = length (d ∷ db ∷ t ∷ tbl ∷ rows ∷ c ∷ col ∷ type ∷ args) in
    let s' = set_db_name db s in
    Good-expect n (is_named (parse_db_name db)) _ _
      (Good-error (db ∷ t ∷ tbl ∷ rows ∷ c ∷ col ∷ type ∷ args) s (omega arith) h)
      λ e.
        Good-expect n (flag_match t b't' (codes "table")) _ _
          (Good-error (t ∷ tbl ∷ rows ∷ c ∷ col ∷ type ∷ args) s' (omega arith) h)
          λ _.
            Good-expect n (is_named (parse_tbl_name tbl)) _ _
              (Good-error (tbl ∷ rows ∷ c ∷ col ∷ type ∷ args) s' (omega arith) h)
              λ e'.
                Good-given n (parse_row_count rows) _ _
                  (Good-error (rows ∷ c ∷ col ∷ type ∷ args) s' (omega arith) h)
                  λ count r.
                    let (positive, most) = parse_row_count-bounds rows count r in
                    let s'' = first_tbl tbl count s' in
                    Good-expect n (flag_match c b'c' (codes "column")) _ _
                      (Good-error (c ∷ col ∷ type ∷ args) s'' (omega arith) h)
                      λ _.
                        Good-expect n (is_named (parse_col_name col)) _ _
                          (Good-error (col ∷ type ∷ args) s'' (omega arith) h)
                          λ e''.
                            Good-col_type n (type ∷ args) _ (omega arith) (omega arith)
                              (first_tbl-Open col tbl count s' h e e' positive most e'')

pub Good-next_db_spec :
    (args : List Arg) (s : GenerateParseState)
    → Idle s
    → Good (length args) (parse_next_db_spec args s)
unfolding parse_next_db_spec
Good-next_db_spec args s h = elim (Bool-cases (has_db_spec args)) [
  | inl e ↦ rw e (Good-first_db_spec args s (leb→le 8 (length args) e) h)
  | inr e ↦ rw e (Good-stop s h)
]

Good-weaken : (n m : ℕ) (next : Next) → n ≤ m → Good n next → Good m next
Good-weaken n m _ l (good_col args s p q h) = good_col args s p (omega arith) h
Good-weaken n m _ l (good_tbl args s p q h) = good_tbl args s p (omega arith) h
Good-weaken n m _ l (good_db args s q h) = good_db args s (omega arith) h
Good-weaken n m _ l (good_join args s p q h) = good_join args s p (omega arith) h
Good-weaken n m _ l (good_done s h t) = good_done s h t

pub Good-db_specs :
    (args : List Arg) (s : GenerateParseState)
    → 8 ≤ length args
    → Idle s
    → Good (length args + 1) (parse_db_specs args s)
unfolding parse_db_specs
Good-db_specs [] s l h = absurd (omega arith)
Good-db_specs (arg ∷ args) s l h =
    Good-expect _ (flag_match arg b'd' (codes "database")) _ _
      (Good-error (arg ∷ args) s (omega arith) h)
      λ _.
        Good-weaken (length (arg ∷ args)) _ _ (omega arith) (Good-first_db_spec (arg ∷ args) s l h)
