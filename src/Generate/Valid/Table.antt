-- ===== src/Generate/Valid/Table.antt =====
-- What beginning and finishing columns, tables and databases make of the specifications and the
-- counters.
use mysql_seed.Generate.Valid.Change.{raise-max, Tally-snoc, Tally-last}
use mysql_seed.Generate.Count.{upto_max}
use mysql_seed.Generate.Name.{parse_db_name, parse_tbl_name, parse_col_name}
use mysql_seed.Generate.Spec.{
  is_named, first_col, count_column, next_col_of, first_tbl, next_tbl_of,
}
use mysql_seed.Generate.Node.{tables_complete}
use mysql_seed.Generate.State.{
  DbSpec, GeneratorCounter, DatabaseCounter, GenerateParseState, parse_table_complete,
  parse_valid_complete, generator_counter_update, database_counter_init, col_spec_blank,
}
use mysql_seed.Generate.Valid.{
  IsCol, IsTbl, IsDb, col_upto, tbl_rows, tbl_columns, tbl_upto, Tally, GeneratorTally, Idle, Open,
  Closed, TblDone, TblBegun, tbl_blank,
}
use mysql_seed.Prelude.{
  ℕ, ◌≤◌, ◌<◌, ◌≡◌, refl, true, List, [], ◌∷◌, ◌++◌, arith, length, length-append, Every-snoc,
  total, greatest, total-snoc, greatest-snoc,
}

table-IsTbl : (s : GenerateParseState) → Closed s → IsTbl (parse_table_complete s)
unfolding parse_table_complete
table-IsTbl s ((db, head, cols, name, tally), b) = (
  head,
  omega (arith, length-append s.cols (s.col ∷ [])),
  Every-snoc (IsCol s.row_count) s.cols s.col cols (name, b),
)

pub tables_complete-TblDone : (s : GenerateParseState) → Closed s → TblDone (tables_complete s)
unfolding tables_complete
tables_complete-TblDone s h =
    let (((idle, name, tables), _, _, _, tally), _) = h in
    (
      (idle, name, Every-snoc IsTbl s.tables (parse_table_complete s) tables (table-IsTbl s h)),
      tally,
    )

generator-snoc :
    (g : GeneratorCounter) (c : DatabaseCounter) (valid : List DbSpec) (d : DbSpec)
    → GeneratorTally g valid
    → Tally c d.tbl_specs
    → GeneratorTally (generator_counter_update g c) (valid ++ (d ∷ []))
unfolding generator_counter_update
generator-snoc g c valid d h t = record {
  rows = omega (arith, h.rows, t.rows, total-snoc (λ d. total tbl_rows d.tbl_specs) valid d);
  row_count_max = omega (
    arith,
    h.row_count_max,
    t.row_count_max,
    raise-max c.row_count_max g.row_count_max,
    greatest-snoc (λ d. greatest tbl_rows d.tbl_specs) valid d,
  );
  tables = omega (arith, h.tables, t.tables, total-snoc (λ d. length d.tbl_specs) valid d);
  columns =
      omega (arith, h.columns, t.columns, total-snoc (λ d. total tbl_columns d.tbl_specs) valid d);
  databases = omega (arith, h.databases, length-append valid (d ∷ []));
  counter_upto = omega (
    arith,
    h.counter_upto,
    t.counter_upto,
    raise-max c.counter_upto g.counter_upto,
    greatest-snoc (λ d. greatest tbl_upto d.tbl_specs) valid d,
  );
}

pub parse_valid_complete-Idle : (s : GenerateParseState) → Closed s → Idle (parse_valid_complete s)
unfolding parse_valid_complete
parse_valid_complete-Idle s h =
    let (((idle, name, tables), _, _, _, tally), _) = h in
    let t = parse_table_complete s in
    let d : DbSpec = record { name = s.db_name; tbl_specs = s.tables ++ (t ∷ []) } in
    (
      Every-snoc IsDb s.valid d idle.0 (
        name,
        omega (arith, length-append s.tables (t ∷ [])),
        Every-snoc IsTbl s.tables t tables (table-IsTbl s h),
      ),
      generator-snoc s.generator s.database s.valid d idle.1 tally,
    )

pub next_col_of-Open :
    (name : List ℕ) (s : GenerateParseState)
    → Closed s
    → is_named (parse_col_name name) ≡ true
    → Open (count_column (next_col_of name s))
unfolding parse_table_complete
next_col_of-Open name s ((db, head, cols, named, tally), b) n = (
  (
    db,
    head,
    Every-snoc (IsCol s.row_count) s.cols s.col cols (named, b),
    n,
    Tally-last s.database _ s.tables (parse_table_complete s)
        (parse_table_complete (next_col_of name s)) 1 0 tally refl
        (omega (arith, length-append (s.cols ++ (s.col ∷ [])) (col_spec_blank name ∷ [])))
        (greatest-snoc (col_upto s.row_count) (s.cols ++ (s.col ∷ [])) (col_spec_blank name)) refl
        refl refl refl (omega arith),
  ),
  refl,
)

pub next_tbl_of-TblBegun :
    (name : List ℕ) (row_count : ℕ) (s : GenerateParseState)
    → TblDone s
    → is_named (parse_tbl_name name) ≡ true
    → 0 < row_count
    → row_count ≤ upto_max
    → TblBegun (next_tbl_of name row_count s)
next_tbl_of-TblBegun name row_count s (db, tally) n p q = (
  db,
  (n, p, q),
  Tally-snoc s.database _ s.tables (tbl_blank (next_tbl_of name row_count s)) tally refl
      (omega (arith, raise-max row_count s.database.row_count_max)) refl (omega arith)
      (omega arith),
)

pub first_col-Open :
    (name : List ℕ) (s : GenerateParseState)
    → TblBegun s
    → is_named (parse_col_name name) ≡ true
    → Open (count_column (first_col name s))
unfolding parse_table_complete
first_col-Open name s (db, head, tally) n = (
  (
    db,
    head,
    tt,
    n,
    Tally-last s.database _ s.tables (tbl_blank s) (parse_table_complete (first_col name s)) 1 0
        tally refl (omega arith) (omega arith) refl refl refl refl (omega arith),
  ),
  refl,
)

pub first_tbl-Open :
    (col tbl : List ℕ) (row_count : ℕ) (s : GenerateParseState)
    → Idle s
    → is_named (parse_db_name s.db_name) ≡ true
    → is_named (parse_tbl_name tbl) ≡ true
    → 0 < row_count
    → row_count ≤ upto_max
    → is_named (parse_col_name col) ≡ true
    → Open (first_col col (first_tbl tbl row_count s))
unfolding parse_table_complete database_counter_init
first_tbl-Open col tbl row_count s idle d t p q c = (
  (
    (idle, d, tt),
    (t, p, q),
    tt,
    c,
    record {
      rows = omega arith;
      row_count_max = omega arith;
      tables = omega arith;
      columns = omega arith;
      counter_upto = omega arith;
    },
  ),
  refl,
)
