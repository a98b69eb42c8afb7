-- ===== src/Column/Texts/Lay.antt =====
-- The cells of build_column_string_unique, one after the other.
use mathlib.Core.List.{append_assoc}
use mysql_seed.Prelude.{
  ℕ, zero, suc, ◌+◌, ◌≤◌, ◌<◌, ◌≡◌, refl, sym, ap, ◌∙◌, some, List, [], ◌∷◌, ◌++◌, arith, lt→ltb,
  le→ltb, length, sum,
}
use mysql_seed.Column.{Span, string_stop}
use mysql_seed.Column.Cells.{lay, lay-all, flat}
use mysql_seed.Column.Fixed.Copies.{Positive}
use mysql_seed.Column.Texts.{put_counted, put_counted_blocks, build_column_string_unique}

-- `n` cells, of the base string and a text each, the first with the text `i`
abbrev pub counted : (text : ℕ → List ℕ) (base : List ℕ) → ℕ → ℕ → List (List ℕ)
counted text base i zero = []
counted text base i (suc n) = (base ++ text i) ∷ counted text base (suc i) n

length-counted : (text : ℕ → List ℕ) (base : List ℕ) (i n : ℕ) → length (counted text base i n) ≡ n
length-counted text base i zero = refl
length-counted text base i (suc n) = omega (arith, length-counted text base (suc i) n)

module _ (counter text : ℕ → List ℕ) (base : List ℕ) (count : ℕ)
    (stored : (i : ℕ) → i < count → string_stop (counter i) ≡ some (text i)) where
  abbrev put_all : ℕ → ℕ → List ℕ → List ℕ
  put_all zero i out = out
  put_all (suc n) i out = put_all n (suc i) ((out ++ base) ++ text i)

  put_counted-all :
      (n i until : ℕ) (out : List ℕ)
      → i + suc n ≤ count
      → until ≡ i + suc n
      → put_counted (suc n) counter base i until out ≡ some (until, put_all (suc n) i out)
  unfolding put_counted
  put_counted-all zero i until out h e =
      let last : suc i ≡ until = omega (arith, e) in
      rw (stored i (omega arith), le→ltb (suc i) until (omega (arith, e)))
        (ap (λ k. some (k, (out ++ base) ++ text i)) last)
  put_counted-all (suc n) i until out h e =
      rw (stored i (omega arith), lt→ltb (suc i) until (omega (arith, e)))
        (put_counted-all n (suc i) until ((out ++ base) ++ text i) (omega arith) (omega (arith, e)))

  lay-counted :
      (n m k i cell : ℕ) (out : List ℕ) (blocks : List ℕ)
      → k ≡ n + m
      → lay n cell out (counted text base i k) blocks
        ≡ lay 0 cell (put_all n i out) (counted text base (i + n) m) blocks
  lay-counted zero m k i cell out blocks e =
      let e' : k ≡ m = omega (arith, e) in let here : i + 0 ≡ i = omega arith in rw (e', here) refl
  lay-counted (suc n) m k i cell out blocks e =
      let e' : k ≡ suc (n + m) = omega (arith, e) in
      let further : i + suc n ≡ suc i + n = omega arith in
      rw (e', further, ← append_assoc out base (text i))
        (lay-counted n m (n + m) (suc i) cell ((out ++ base) ++ text i) blocks refl)

  put_counted_blocks-lay :
      (i : ℕ) (out : List ℕ) (rows : ℕ) (blocks : List ℕ)
      → Positive (rows ∷ blocks)
      → i + sum (rows ∷ blocks) ≤ count
      → put_counted_blocks counter base i out rows blocks
        ≡ lay rows (length out) out (counted text base i (sum (rows ∷ blocks))) blocks
  unfolding put_counted_blocks
  put_counted_blocks-lay i out zero blocks (q, qs) h = absurd (omega arith)
  put_counted_blocks-lay i out (suc n) [] q h =
      rw (put_counted-all n i (i + suc n) out (omega arith) refl)
        (sym (lay-counted (suc n) 0 (sum (suc n ∷ [])) i (length out) out [] (omega arith)))
  put_counted_blocks-lay i out (suc n) (rows' ∷ blocks) (q, qs) h =
      let out' = put_all (suc n) i out in
      rw
        (
          put_counted-all n i (i + suc n) out (omega arith) refl,
          put_counted_blocks-lay (i + suc n) out' rows' blocks qs (omega arith),
        )
        (sym (
          lay-counted (suc n) (sum (rows' ∷ blocks)) (sum (suc n ∷ rows' ∷ blocks)) i (length out)
            out (rows' ∷ blocks) refl))

  -- Let the strings at the counter's pointers be the texts, let each block have at least one row,
  -- and let there be no more rows than texts. Then `build_column_string_unique` returns; each cell
  -- that it has written is the base string and the next text, from the first on, and the spans of
  -- the blocks are those that come of giving each block one cell after the other, as many as it has
  -- rows (`lay`).
  pub build_column_string_unique-lay :
      (rows : ℕ) (blocks : List ℕ)
      → Positive (rows ∷ blocks)
      → sum (rows ∷ blocks) ≤ count
      → let cells = counted text base 0 (sum (rows ∷ blocks)) in
        (spans : List Span) × (lay rows 0 [] cells blocks ≡ some (spans, flat cells))
        × (build_column_string_unique counter base rows blocks ≡ some (spans, flat cells))
  unfolding build_column_string_unique
  build_column_string_unique-lay rows blocks p h =
      let cells = counted text base 0 (sum (rows ∷ blocks)) in
      let (spans, r) =
        lay-all rows 0 [] cells blocks (length-counted text base 0 (sum (rows ∷ blocks))) in
      (spans, r, put_counted_blocks-lay 0 [] rows blocks p (omega arith) ∙ r)
