-- ===== src/Generate/Valid/Good/End.antt =====
-- The parsing ends, and what it ends with.
use mysql_seed.Generate.Valid.Good.Spec.{
  Good-next_col_spec, Good-next_tbl_spec, Good-next_db_spec, Good-db_specs,
}
use mysql_seed.Generate.Flag.{Arg}
use mysql_seed.Generate.Node.{Next}
use mysql_seed.Generate.State.{GenerateParseState}
use mysql_seed.Generate.Spec.{
  has_db_spec, Outcome, refused, finished, joined, faulted, out_of_fuel, run, generate_dispatch,
  initial_state,
}
use mysql_seed.Generate.Valid.{Idle, IsDb, GeneratorTally, Open}
use mysql_seed.Generate.Valid.Good.{Good, good_col, good_tbl, good_db, good_join, good_done}
use mysql_seed.Prelude.{
  ℕ, zero, suc, ◌+◌, ◌≤◌, ◌<◌, ◌≡◌, ◌≢◌, refl, true, List, arith, length, leb→le, inl, inr,
  Bool-cases, Every,
}

-- What the parsing ends with.
abbrev pub Settled : Outcome → Type 0
Settled refused = 0 ≤ 0
Settled (finished s) = Idle s × (s.terminated ≡ true)
Settled (joined args s) = (0 < length args) × Open s
Settled faulted = 1 ≤ 0
Settled out_of_fuel = 1 ≤ 0

run-Settled : (fuel n : ℕ) (next : Next) → Good n next → n ≤ fuel → Settled (run fuel next)
unfolding run
run-Settled fuel n _ (good_done s h t) l = (h, t)
run-Settled fuel n _ (good_join args s p q h) l = (p, h)
run-Settled zero n _ (good_col args s p q h) l = absurd (omega arith)
run-Settled zero n _ (good_tbl args s p q h) l = absurd (omega arith)
run-Settled zero n _ (good_db args s q h) l = absurd (omega arith)
run-Settled (suc fuel) n _ (good_col args s p q h) l =
    run-Settled fuel (length args) _ (Good-next_col_spec args s p h) (omega arith)
run-Settled (suc fuel) n _ (good_tbl args s p q h) l =
    run-Settled fuel (length args) _ (Good-next_tbl_spec args s p h) (omega arith)
run-Settled (suc fuel) n _ (good_db args s q h) l =
    run-Settled fuel (length args) _ (Good-next_db_spec args s h) (omega arith)

initial-Idle : Idle initial_state
initial-Idle = (
  tt,
  record {
    rows = refl;
    row_count_max = refl;
    tables = refl;
    columns = refl;
    databases = refl;
    counter_upto = refl;
  },
)

generate_dispatch-Settled : (args : List Arg) → Settled (generate_dispatch args)
unfolding generate_dispatch
generate_dispatch-Settled args = elim (Bool-cases (has_db_spec args)) [
  | inl e ↦ rw e (
      run-Settled (length args + 1) (length args + 1) _
        (Good-db_specs args initial_state (leb→le 8 (length args) e) initial-Idle) (omega arith))
  | inr e ↦ rw e (omega arith)
]

-- For every argument list the parsing of mode generate, up to its end or to the first JOIN_SPEC,
-- which is where the model stops (`joined`), never steps beyond or reads at `argv.arg.until`, also
-- where it does not look for the end, and as much fuel as there are arguments, and one more, is
-- enough for it. Nothing is said of the parsing from a JOIN_SPEC on.
pub generate_dispatch-ends :
    (args : List Arg) → (generate_dispatch args ≢ faulted) × (generate_dispatch args ≢ out_of_fuel)
generate_dispatch-ends args =
    let settled = generate_dispatch-Settled args in
    (λ e. absurd (omega (arith, rw e at settled)), λ e. absurd (omega (arith, rw e at settled)))

-- Where the parsing of mode generate is finished without having come to a JOIN_SPEC (the outcome at
-- a JOIN_SPEC is another, `joined`, and nothing is said of it), the list of the valid databases is
-- terminated, and every one of them is well-formed (`IsDb`): it has a table, its tables have a
-- column each and 1 to UPTO_MAX rows, all names are accepted, every column has been set, and a
-- column with groups has 1 to as many groups as the table has rows. The counters of the generator
-- are those of these databases (`GeneratorTally`): the sums of the rows, the tables and the
-- columns, their number, the greatest number of rows, and the greatest number that a column counts
-- up to.
pub generate_dispatch-valid :
    (args : List Arg) (s : GenerateParseState)
    → generate_dispatch args ≡ finished s
    → Every IsDb s.valid × GeneratorTally s.generator s.valid × (s.terminated ≡ true)
generate_dispatch-valid args s e =
    let ((dbs, tally), t) = rw e at (generate_dispatch-Settled args) in (dbs, tally, t)
