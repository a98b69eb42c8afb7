-- ===== src/Generate/Valid/Good/Close.antt =====
-- The nodes that close a column, and those of a GRP_SPEC, make progress.
use mysql_seed.Generate.Valid.Good.{
  Good, good_col, good_tbl, good_db, good_done, Good-switch, Good-given, Good-error, Good-stop,
  parse_grp_count-bounds,
}
use mysql_seed.Generate.Flag.{Arg}
use mysql_seed.Generate.Count.{parse_grp_count}
use mysql_seed.Generate.Node.{
  Node, generate_parse_complete, close_spec, parse_column_complete, error_multiple_grp_specs,
  error_grp_spec_for_fixed_data, set_partition, set_grp_count, grp_spec_close, parse_grp_spec,
}
use mysql_seed.Generate.State.{GenerateParseState, Partition, even, linear}
use mysql_seed.Generate.Valid.{Idle, Open, Closed}
use mysql_seed.Generate.Valid.Change.{set_partition-Open, set_grp_count-Open}
use mysql_seed.Generate.Valid.Table.{tables_complete-TblDone, parse_valid_complete-Idle}
use mysql_seed.Prelude.{ℕ, ◌≤◌, ◌<◌, refl, List, [], ◌∷◌, arith, length}

-- a column that is open, of a group whose count is written
abbrev pub GrpOpen : GenerateParseState → Type 0
GrpOpen s = Open s × (0 < s.col.grp_count) × (s.col.grp_count ≤ s.row_count)

-- A setter that closes a column of a group.
abbrev pub Closes : (GenerateParseState → GenerateParseState) → Type 0
Closes set = (s : GenerateParseState) → GrpOpen s → Closed (set s)

Closes-set_partition :
    (set : GenerateParseState → GenerateParseState) (part : Partition) (s : GenerateParseState)
    → Closes set
    → GrpOpen s
    → Closed (set (set_partition part s))
Closes-set_partition set part s closes (h, a, b) = closes _ (set_partition-Open part s h, a, b)

module _ {n : ℕ} where
  pub Good-complete : (s : GenerateParseState) → Closed s → Good n (generate_parse_complete s)
  unfolding generate_parse_complete
  Good-complete s h = good_done _ (parse_valid_complete-Idle s h) refl

  pub Good-close :
      (set : GenerateParseState → GenerateParseState) (arg : Arg) (args : List Arg)
      (s : GenerateParseState)
      → 0 < length args
      → length args < n
      → Closed (set s)
      → Idle s
      → Good n (close_spec set arg args s)
  unfolding close_spec
  Good-close set arg args s p l h idle =
      let next_col' = good_col args _ p l h in
      let next_tbl' = good_tbl args _ p l (tables_complete-TblDone (set s) h) in
      let next_db' = good_db args _ l (parse_valid_complete-Idle (set s) h) in
      Good-switch n arg _ _ (next_col', (next_tbl', (next_db', tt))) (Good-error args s l idle)

  pub Good-column_complete :
      (set : GenerateParseState → GenerateParseState) (handle : Node) (args : List Arg)
      (s : GenerateParseState)
      → 0 < length args
      → length args < n
      → Closed (set s)
      → Idle s
      → ((rest : List Arg) → 0 < length rest → length rest < n → Good n (handle rest s))
      → Good n (parse_column_complete set handle args s)
  unfolding parse_column_complete
  Good-column_complete set handle [] s p l h idle g = absurd (omega arith)
  Good-column_complete set handle (_ ∷ []) s p l h idle g = Good-complete (set s) h
  Good-column_complete set handle (_ ∷ arg ∷ args) s p l h idle g =
      Good-switch n arg _ _ (g (arg ∷ args) (omega arith) (omega arith), tt)
        (Good-close set arg (arg ∷ args) s (omega arith) (omega arith) h idle)

  Good-multiple :
      (args : List Arg) (s : GenerateParseState)
      → 0 < length args
      → length args < n
      → Idle s
      → Good n (error_multiple_grp_specs args s)
  unfolding error_multiple_grp_specs
  Good-multiple [] s p l h = absurd (omega arith)
  Good-multiple (_ ∷ args) s p l h = Good-error args s (omega arith) h

  pub Good-fixed :
      (args : List Arg) (s : GenerateParseState)
      → length args < n
      → Idle s
      → Good n (error_grp_spec_for_fixed_data args s)
  unfolding error_grp_spec_for_fixed_data
  Good-fixed args s l h = Good-error args s l h

  module _ (set : GenerateParseState → GenerateParseState) (closes : Closes set) where
    partitioned :
        (part : Partition) (args : List Arg) (s : GenerateParseState)
        → 0 < length args
        → length args < n
        → GrpOpen s
        → Good n (parse_column_complete set error_multiple_grp_specs args (set_partition part s))
    partitioned part args s p l h =
        Good-column_complete set error_multiple_grp_specs args (set_partition part s) p l
          (Closes-set_partition set part s closes h) h.0.0.0.0
          (λ rest p l. Good-multiple rest (set_partition part s) p l h.0.0.0.0)

    Good-grp_spec_close :
        (args : List Arg) (s : GenerateParseState)
        → 0 < length args
        → length args < n
        → GrpOpen s
        → Good n (grp_spec_close set args s)
    unfolding grp_spec_close
    Good-grp_spec_close [] s p l h = absurd (omega arith)
    Good-grp_spec_close (_ ∷ []) s p l h =
        Good-complete _ (Closes-set_partition set even s closes h)
    Good-grp_spec_close (_ ∷ arg ∷ args) s p l h =
        let idle = h.0.0.0.0 in
        let even' = partitioned even (arg ∷ args) s (omega arith) (omega arith) h in
        let linear' = partitioned linear (arg ∷ args) s (omega arith) (omega arith) h in
        let again = Good-multiple (arg ∷ args) s (omega arith) (omega arith) idle in
        Good-switch n arg _ _ (even', (linear', (again, tt)))
          (Good-close (λ t. set (set_partition even t)) arg (arg ∷ args) s (omega arith)
            (omega arith) (Closes-set_partition set even s closes h) idle)

    pub Good-grp_spec :
        (args : List Arg) (s : GenerateParseState)
        → 0 < length args
        → length args < n
        → Open s
        → Good n (parse_grp_spec set args s)
    unfolding parse_grp_spec
    Good-grp_spec [] s p l h = absurd (omega arith)
    Good-grp_spec (_ ∷ []) s p l h = Good-stop s h.0.0.0
    Good-grp_spec (_ ∷ arg ∷ args) s p l h =
        Good-given n (parse_grp_count s.row_count arg) _ _
          (Good-error (arg ∷ args) s (omega arith) h.0.0.0)
          (λ count e.
            let (positive, most) = parse_grp_count-bounds s.row_count arg count e in
            Good-grp_spec_close (arg ∷ args) (set_grp_count count s) (omega arith) (omega arith)
              (set_grp_count-Open count s h, positive, most))
