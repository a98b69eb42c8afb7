-- ===== src/Generate/Flag/Match.antt =====
-- Which arguments a flag matches, and where the search for it stops.
use mysql_seed.Decimal.Parse.{strings_equal}
use mysql_seed.Generate.Flag.{
  Arg, long_flag_match, short_flag_match, flag_match, flag_match_count, flag_match_next,
}
use mysql_seed.Prelude.{
  ℕ, ◌≡◌, ◌≢◌, refl, ap, inl, inr, true, ◌||◌, List, [], ◌∷◌, ◌++◌, arith, Bool-cases,
}

-- For a short flag x that is not `-` and every long flag, `flag_match` accepts exactly the
-- arguments `-x`, `--long` and `-x-long`.
pub flag_match_lem :
    (arg : Arg) (short : ℕ) (long : List ℕ)
    → short ≢ b'-'
    → flag_match arg short long
      ≡ strings_equal arg (b'-' ∷ short ∷ [])
        || strings_equal arg (b'-' ∷ b'-' ∷ long)
        || strings_equal arg (b'-' ∷ short ∷ b'-' ∷ long)
unfolding flag_match short_flag_match long_flag_match strings_equal
flag_match_lem [] short long h = refl
flag_match_lem (a ∷ []) short long h = ground arith
flag_match_lem (a ∷ c ∷ []) short long h = ground arith
flag_match_lem (a ∷ c ∷ d ∷ arg) short long h = ground arith

-- the head of the arguments, if any, is the flag
abbrev pub Begins : List Arg → ℕ → List ℕ → Type 0
Begins [] short long = Unit
Begins (arg ∷ _) short long = flag_match arg short long ≡ true

-- For all arguments and every flag, `flag_match_next` skips arguments of which none is the flag
-- (`flag_match_count` is 0 for them), and stops at the end or at an argument that is the flag.
pub flag_match_next-splits :
    (args : List Arg) (short : ℕ) (long : List ℕ)
    → let rest = flag_match_next args short long in
      (skipped : List Arg) × (skipped ++ rest ≡ args)
      × (flag_match_count skipped short long ≡ 0)
      × Begins rest short long
unfolding flag_match_next flag_match_count
flag_match_next-splits [] short long = ([], refl, refl, tt)
flag_match_next-splits (arg ∷ args) short long = elim (Bool-cases (flag_match arg short long)) [
  | inl e ↦ rw e ([], refl, refl, e)
  | inr e ↦
      let (skipped, all, none, begins) = flag_match_next-splits args short long in
      rw e (arg ∷ skipped, ap (λ r. arg ∷ r) all, rw e none, begins)
]
