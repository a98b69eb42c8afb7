-- ===== src/Column/Unique.antt =====
-- build_column_u_integer_unique of generate/column_u_integer.c and build_column_integer_unique of
-- generate/column_integer.c: the cells of the column are the texts of
-- the counter. A pointer of the counter is its distance from the first text.
use mysql_seed.Prelude.{
  ℕ, ◌+◌, ◌-◌, ◌*◌, ◌≤◌, ◌<◌, ◌≡◌, ap, ap₂, ◌∙◌, Option, some, List, [], ◌∷◌, arith, sum,
}
use mysql_seed.Bytes.{Buffer}
use mysql_seed.Counter.{upto_max}
use mysql_seed.Counter.Size.{size_of_texts}
use mysql_seed.Counter.Fill.{Texts, built, counter_init_internals}
use mysql_seed.Counter.Layout.{counter_init_internals-pointers}
use mysql_seed.Column.{Span}

-- The loop from the block of `rows` rows on, with `blocks` the row counts of those behind it: the spans
-- of the blocks, and `count_ptr` behind the last one.
count_spans : Buffer → ℕ → ℕ → List ℕ → List Span × ℕ
count_spans pointers count_ptr rows [] =
    let next = count_ptr + rows in
    ((record { cell = pointers count_ptr; size = pointers next - pointers count_ptr }) ∷ [], next)
count_spans pointers count_ptr rows (rows' ∷ blocks) =
    let next = count_ptr + rows in
    let r = count_spans pointers next rows' blocks in
    ((record { cell = pointers count_ptr; size = pointers next - pointers count_ptr }) ∷ r.0, r.1)

-- the spans, and what is added to the total of the table
pub build_column_u_integer_unique : Texts → ℕ → List ℕ → List Span × ℕ
build_column_u_integer_unique counter rows blocks =
    let r = count_spans counter.pointers 0 rows blocks in
    (r.0, counter.pointers r.1 - counter.pointers 0)

-- The same of generate/column_integer.c.
pub build_column_integer_unique : Texts → ℕ → List ℕ → List Span × ℕ
build_column_integer_unique counter rows blocks =
    let r = count_spans counter.pointers 0 rows blocks in
    (r.0, counter.pointers r.1 - counter.pointers 0)

-- the texts of the numbers behind `i`, cut into blocks of these row counts
abbrev pub number_spans : ℕ → List ℕ → List Span
number_spans i [] = []
number_spans i (rows ∷ blocks) =
    (record { cell = size_of_texts i; size = size_of_texts (i + rows) - size_of_texts i })
    ∷ number_spans (i + rows) blocks

count_spans-numbers :
    (pointers : Buffer) (upto : ℕ)
    → ((i : ℕ) → i ≤ upto → pointers i ≡ size_of_texts i)
    → (i rows : ℕ) (blocks : List ℕ) → i + sum (rows ∷ blocks) ≤ upto
    → count_spans pointers i rows blocks ≡ (number_spans i (rows ∷ blocks), i + sum (rows ∷ blocks))
unfolding count_spans
count_spans-numbers pointers upto p i rows [] h =
    rw (p i (omega arith), p (i + rows) (omega arith))
      (ap
        (λ n. (
          record { cell = size_of_texts i; size = size_of_texts (i + rows) - size_of_texts i } ∷ [],
          n,
        ))
        (omega arith))
count_spans-numbers pointers upto p i rows (rows' ∷ blocks) h =
    rw
      (
        p i (omega arith),
        p (i + rows) (omega arith),
        count_spans-numbers pointers upto p (i + rows) rows' blocks (omega arith),
      )
      (ap (λ n. (number_spans i (rows ∷ rows' ∷ blocks), n)) (omega arith))

pointers-difference :
    (counter : Texts) (upto n : ℕ)
    → ((i : ℕ) → i ≤ upto → counter.pointers i ≡ size_of_texts i)
    → n ≤ upto
    → counter.pointers (0 + n) - counter.pointers 0 ≡ size_of_texts n
unfolding size_of_texts
pointers-difference counter upto n q h =
    let e : 0 + n ≡ n = omega arith in rw e (ap₂ ◌-◌ (q n h) (q 0 (omega arith)) ∙ omega arith)

-- For "upto" from 1 to `upto_max` that is not below the rows of all blocks, and the counter that
-- `counter_init_internals` builds in the memory that it is granted, `build_column_u_integer_unique`
-- and `build_column_integer_unique` give the blocks one after the other the texts of the next
-- numbers from 1 on, as many as they have rows (`number_spans`), and add the size of the texts of
-- all rows to the total.
pub build_column_u_integer_unique-numbers :
    (malloc : ℕ → Option Texts) (upto : ℕ) (texts : Texts) (rows : ℕ) (blocks : List ℕ)
    → 0 < upto
    → upto ≤ upto_max
    → malloc (8 * (upto + 1) + size_of_texts upto) ≡ some texts
    → sum (rows ∷ blocks) ≤ upto
    → (counter : Texts) × (counter_init_internals malloc upto ≡ built counter)
      × (build_column_u_integer_unique counter rows blocks
          ≡ (number_spans 0 (rows ∷ blocks), size_of_texts (sum (rows ∷ blocks))))
      × (build_column_integer_unique counter rows blocks
          ≡ (number_spans 0 (rows ∷ blocks), size_of_texts (sum (rows ∷ blocks))))
unfolding build_column_u_integer_unique build_column_integer_unique
build_column_u_integer_unique-numbers malloc upto texts rows blocks p h e l =
    let (counter, b, q) = counter_init_internals-pointers malloc upto texts p h e in
    let spans : build_column_u_integer_unique counter rows blocks
        ≡ (number_spans 0 (rows ∷ blocks), size_of_texts (sum (rows ∷ blocks))) =
      rw (count_spans-numbers counter.pointers upto q 0 rows blocks (omega (arith, l))) (
        ap (λ n. (number_spans 0 (rows ∷ blocks), n))
          (pointers-difference counter upto (sum (rows ∷ blocks)) q l)) in
    (counter, b, spans, spans)
