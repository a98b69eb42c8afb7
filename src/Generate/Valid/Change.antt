-- ===== src/Generate/Valid/Change.antt =====
-- What setting a column and writing its group make of the specifications and the counters.
use mysql_seed.Generate.Node.{set_partition, set_grp_count}
use mysql_seed.Generate.State.{
  Build, ungrouped, grouped, ColSpec, TblSpec, DatabaseCounter, GenerateParseState, Kind, Partition,
  counts_up, parse_table_complete, column, column_group, set_build, raise,
}
use mysql_seed.Generate.Valid.{
  IsBuild, build_upto, col_upto, tbl_rows, tbl_columns, tbl_upto, Tally, InTbl, Open, Closed,
}
use mysql_seed.Prelude.{
  ℕ, ◌+◌, ◌≤◌, ◌<◌, max, ◌≡◌, refl, ap, Bool, true, false, List, [], ◌∷◌, ◌++◌, arith,
  if◌then◌else◌, length, length-append, greatest, total-snoc, greatest-snoc,
}

pub raise-max : (value most : ℕ) → raise value most ≡ max value most
raise-max value most = ground arith

-- A table more is counted.
pub Tally-snoc :
    (c c' : DatabaseCounter) (tables : List TblSpec) (t : TblSpec)
    → Tally c tables
    → c'.rows ≡ c.rows + t.row_count
    → c'.row_count_max ≡ max c.row_count_max t.row_count
    → c'.tables ≡ c.tables + 1
    → c'.columns ≡ c.columns + length t.col_specs
    → c'.counter_upto ≡ max c.counter_upto (tbl_upto t)
    → Tally c' (tables ++ (t ∷ []))
Tally-snoc c c' tables t h a b d e f = record {
  rows = omega (arith, h.rows, total-snoc tbl_rows tables t);
  row_count_max = omega (arith, h.row_count_max, greatest-snoc tbl_rows tables t);
  tables = omega (arith, h.tables, length-append tables (t ∷ []));
  columns = omega (arith, h.columns, total-snoc tbl_columns tables t);
  counter_upto = omega (arith, h.counter_upto, greatest-snoc tbl_upto tables t);
}

-- The table that is counted last is replaced by one with the same rows.
pub Tally-last :
    (c c' : DatabaseCounter) (tables : List TblSpec) (t t' : TblSpec) (columns upto : ℕ)
    → Tally c (tables ++ (t ∷ []))
    → t'.row_count ≡ t.row_count
    → length t'.col_specs ≡ length t.col_specs + columns
    → tbl_upto t' ≡ max (tbl_upto t) upto
    → c'.rows ≡ c.rows
    → c'.row_count_max ≡ c.row_count_max
    → c'.tables ≡ c.tables
    → c'.columns ≡ c.columns + columns
    → c'.counter_upto ≡ max c.counter_upto upto
    → Tally c' (tables ++ (t' ∷ []))
Tally-last c c' tables t t' columns upto h r l u a b d e f = record {
  rows = omega (arith, h.rows, total-snoc tbl_rows tables t, total-snoc tbl_rows tables t');
  row_count_max =
      omega
        (arith, h.row_count_max, greatest-snoc tbl_rows tables t, greatest-snoc tbl_rows tables t');
  tables = omega (arith, h.tables, length-append tables (t ∷ []), length-append tables (t' ∷ []));
  columns =
      omega (arith, h.columns, total-snoc tbl_columns tables t, total-snoc tbl_columns tables t');
  counter_upto =
      omega
        (arith, h.counter_upto, greatest-snoc tbl_upto tables t, greatest-snoc tbl_upto tables t');
}

upto_if :
    (most count : ℕ) (up : Bool)
    → (if up then raise count most else most) ≡ max most (if up then count else 0)
upto_if most count true = ground arith
upto_if most count false = omega arith

-- The current column is rewritten, and counted as far as `upto`.
recol-InTbl :
    (s : GenerateParseState) (c : ColSpec) (d : DatabaseCounter) (upto : ℕ)
    → Open s
    → c.name ≡ s.col.name
    → col_upto s.row_count c ≡ upto
    → d.rows ≡ s.database.rows
    → d.row_count_max ≡ s.database.row_count_max
    → d.tables ≡ s.database.tables
    → d.columns ≡ s.database.columns
    → d.counter_upto ≡ max s.database.counter_upto upto
    → InTbl (record s { col = c; database = d })
unfolding parse_table_complete
recol-InTbl s c d upto ((db, head, cols, name, tally), blank) n u e1 e2 e3 e4 e5 = (
  db,
  head,
  cols,
  rw n name,
  Tally-last s.database d s.tables (parse_table_complete s)
      (record { name = s.tbl_name; row_count = s.row_count; col_specs = s.cols ++ (c ∷ []) }) 0 upto
      tally refl same_length cols_upto e1 e2 e3 (omega (arith, e4)) e5,
)
  where
    same_length : length (s.cols ++ (c ∷ [])) ≡ length (s.cols ++ (s.col ∷ [])) + 0
    same_length = omega (arith, length-append s.cols (c ∷ []), length-append s.cols (s.col ∷ []))

    cols_upto :
        greatest (col_upto s.row_count) (s.cols ++ (c ∷ []))
        ≡ max (greatest (col_upto s.row_count) (s.cols ++ (s.col ∷ []))) upto
    cols_upto = omega (
      arith,
      u,
      ap (build_upto s.row_count s.col.grp_count) blank,
      greatest-snoc (col_upto s.row_count) s.cols s.col,
      greatest-snoc (col_upto s.row_count) s.cols c,
    )

pub set_partition-Open :
    (partition : Partition) (s : GenerateParseState) → Open s → Open (set_partition partition s)
set_partition-Open partition s h = (
  recol-InTbl s (record s.col { partition = partition }) s.database 0 h refl
      (ap (build_upto s.row_count s.col.grp_count) h.1) refl refl refl refl (omega arith),
  h.1,
)

pub set_grp_count-Open :
    (grp_count : ℕ) (s : GenerateParseState) → Open s → Open (set_grp_count grp_count s)
set_grp_count-Open grp_count s h = (
  recol-InTbl s (record s.col { grp_count = grp_count }) s.database 0 h refl
      (ap (build_upto s.row_count grp_count) h.1) refl refl refl refl (omega arith),
  h.1,
)

-- A setter turns an open column into a closed one.
set_build-Closed :
    (s : GenerateParseState) (build : Build) (count : ℕ) (up : Bool)
    → Open s
    → IsBuild s.row_count s.col.grp_count build
    → build_upto s.row_count s.col.grp_count build ≡ (if up then count else 0)
    → Closed (set_build build count up s)
set_build-Closed s build count up h b u = (
  recol-InTbl s (record s.col { build = build }) _ (if up then count else 0) h refl u refl refl refl
      refl (upto_if s.database.counter_upto count up),
  b,
)

pub column-Closed : (kind : Kind) (s : GenerateParseState) → Open s → Closed (column kind s)
unfolding column
column-Closed kind s h =
    set_build-Closed s (ungrouped kind) s.row_count (counts_up kind) h (omega arith) refl

pub column_group-Closed :
    (kind : Kind) (s : GenerateParseState)
    → Open s
    → 0 < s.col.grp_count
    → s.col.grp_count ≤ s.row_count
    → Closed (column_group kind s)
unfolding column_group
column_group-Closed kind s h a b =
    set_build-Closed s (grouped kind) s.col.grp_count (counts_up kind) h (a, b) refl
