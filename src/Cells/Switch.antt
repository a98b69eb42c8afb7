-- ===== src/Cells/Switch.antt =====
-- A switch, by what its character is.
use mysql_seed.Prelude.{ℕ, ◌≡◌, Option, none, some, List, ◌∷◌, arith}
use mysql_seed.Cells.{at, set_string, switch_text}

module _ (next : ℕ → Option ℕ) (cells : List ℕ) (i : ℕ) (tail rest : List ℕ) where
  pub switch_text-some :
      {d : ℕ}
      → next (at cells i) ≡ some d
      → switch_text next cells i tail rest ≡ set_string cells i (d ∷ tail)
  switch_text-some e = ground arith

  pub switch_text-none : next (at cells i) ≡ none → switch_text next cells i tail rest ≡ rest
  switch_text-none e = ground arith
