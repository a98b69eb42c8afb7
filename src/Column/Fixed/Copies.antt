-- ===== src/Column/Fixed/Copies.antt =====
-- The contents of the columns that write one text into each cell.
use mysql_seed.Prelude.{
  ℕ, zero, suc, ◌+◌, ◌-◌, ◌*◌, ◌≤◌, ◌<◌, ◌≡◌, refl, sym, ap, ◌∙◌, Option, some, ◌>>=◌, List, [],
  ◌∷◌, ◌++◌, arith, length, length-append, sum, lt→ltb, le→ltb,
}
use mysql_seed.Decimal.Parse.Scan.{length-turn}
use mysql_seed.Column.{Span, put_copies}
use mysql_seed.Column.Fixed.{
  put_block, put_blocks, put_time_blocks, size_time_string, build_column_string_fixed,
  build_column_integer_fixed, build_column_u_integer_fixed, build_column_datetime_fixed,
  build_column_timestamp_fixed, time_text,
}

-- the spans of blocks of `width` bytes for each row, from `cell` on
abbrev pub even_spans : (width cell : ℕ) → List ℕ → List Span
even_spans width cell [] = []
even_spans width cell (rows ∷ blocks) =
    (record { cell = cell; size = width * rows }) ∷ even_spans width (cell + width * rows) blocks

abbrev pub Positive : List ℕ → Type 0
Positive [] = 0 ≤ 0
Positive (n ∷ ns) = (0 < n) × Positive ns

length-put_copies :
    (n : ℕ) (text out : List ℕ) → length (put_copies n text out) ≡ length out + length text * n
unfolding put_copies
length-put_copies zero text out = omega arith
length-put_copies (suc n) text out =
    omega (arith, length-put_copies n text (out ++ text), length-append out text)

one_more_row : (l w n : ℕ) → 0 < w → l + w < l + w * suc (suc n)
one_more_row l w n h = grind arith

row_off : (l w n : ℕ) → l + w * suc (suc n) ≡ l + w + w * suc n
row_off l w n = grind arith

put_block-copies :
    (n : ℕ) (text out : List ℕ) (until : ℕ)
    → 0 < length text
    → until ≡ length out + length text * suc n
    → put_block (suc n) text out until ≡ some (put_copies (suc n) text out)
unfolding put_block put_copies
put_block-copies zero text out until p e =
    let l = length-append out text in rw (le→ltb (length (out ++ text)) until (omega arith)) refl
put_block-copies (suc n) text out until p e =
    let l = length-append out text in
    let less : length (out ++ text) < until =
      omega (arith, l, e, one_more_row (length out) (length text) n p) in
    rw (lt→ltb (length (out ++ text)) until less) (
      put_block-copies n text (out ++ text) until p
        (omega (arith, l, e, row_off (length out) (length text) n)))

put_copies-more :
    (m n : ℕ) (text out : List ℕ)
    → put_copies n text (put_copies m text out) ≡ put_copies (m + n) text out
unfolding put_copies
put_copies-more zero n text out =
    let e : n ≡ 0 + n = omega arith in ap (λ k. put_copies k text out) e
put_copies-more (suc m) n text out =
    let e : suc m + n ≡ suc (m + n) = omega arith in rw e (put_copies-more m n text (out ++ text))

-- the contents behind `n` copies, and the place of the next block
abbrev pub behind : (text out : List ℕ) (n : ℕ) → List ℕ
behind text out n = put_copies n text out

put_blocks-copies :
    (text out : List ℕ) (rows : ℕ) (blocks : List ℕ)
    → 0 < length text
    → Positive (rows ∷ blocks)
    → put_blocks (length text) text out rows blocks
      ≡ some (
        even_spans (length text) (length out) (rows ∷ blocks),
        put_copies (sum (rows ∷ blocks)) text out,
      )
unfolding put_blocks
put_blocks-copies text out zero blocks p (q, qs) = absurd (omega arith)
put_blocks-copies text out (suc n) [] p h =
    let count : suc n ≡ suc n + 0 = omega arith in
    rw (put_block-copies n text out _ p refl) (
      ap
        (λ k.
          some
            (record { cell = length out; size = length text * suc n } ∷ [], put_copies k text out))
        count)
put_blocks-copies text out (suc n) (rows' ∷ blocks) p (q, qs) =
    let l = length-put_copies (suc n) text out in
    rw
      (
        put_block-copies n text out _ p refl,
        put_blocks-copies text (behind text out (suc n)) rows' blocks p qs,
      )
      (ap
          (λ c. some (
            record { cell = length out; size = length text * suc n }
                ∷ even_spans (length text) c (rows' ∷ blocks),
            put_copies (sum (rows' ∷ blocks)) text (behind text out (suc n)),
          ))
          l
        ∙ ap (λ k. some (even_spans (length text) (length out) (suc n ∷ rows' ∷ blocks), k))
            (put_copies-more (suc n) (sum (rows' ∷ blocks)) text out))

time_size :
    (text out : List ℕ) (n : ℕ)
    → length text ≡ size_time_string
    → length (behind text out (suc n)) - length out ≡ size_time_string * suc n
time_size text out n w =
    let l : length (behind text out (suc n)) ≡ length out + size_time_string * suc n =
      length-put_copies (suc n) text out ∙ ap (λ k. length out + k * suc n) w in
    omega (arith, l)

time_block :
    (text out : List ℕ) (n : ℕ)
    → length text ≡ size_time_string
    → put_block (suc n) text out (length out + size_time_string * suc n)
      ≡ some (behind text out (suc n))
time_block text out n w =
    put_block-copies n text out _ (omega (arith, w)) (ap (λ k. length out + k * suc n) (sym w))

-- the time columns add what the others add
put_time_blocks-put_blocks :
    (text out : List ℕ) (rows : ℕ) (blocks : List ℕ)
    → length text ≡ size_time_string
    → Positive (rows ∷ blocks)
    → put_time_blocks text out rows blocks ≡ put_blocks size_time_string text out rows blocks
unfolding put_blocks put_time_blocks
put_time_blocks-put_blocks text out zero blocks w (q, qs) = absurd (omega arith)
put_time_blocks-put_blocks text out (suc n) [] w h = rw (time_block text out n w) (
    ap (λ z. some (record { cell = length out; size = z } ∷ [], behind text out (suc n)))
      (time_size text out n w))
put_time_blocks-put_blocks text out (suc n) (rows' ∷ blocks) w (q, qs) =
    rw
      (
        time_block text out n w,
        put_time_blocks-put_blocks text (behind text out (suc n)) rows' blocks w qs,
      )
      (ap
        (λ z. do
          r ← put_blocks size_time_string text (behind text out (suc n)) rows' blocks
          some (record { cell = length out; size = z } ∷ r.0, r.1))
        (time_size text out n w))

-- what a column with one text gives for the blocks of a table
abbrev pub copied : (text : List ℕ) (blocks : List ℕ) → Option (List Span × List ℕ)
copied text blocks = some (even_spans (length text) 0 blocks, put_copies (sum blocks) text [])

put_time_blocks-copies :
    (string : List ℕ) (rows : ℕ) (blocks : List ℕ)
    → length string ≡ 19
    → Positive (rows ∷ blocks)
    → put_time_blocks (time_text string) [] rows blocks ≡ copied (time_text string) (rows ∷ blocks)
put_time_blocks-copies string rows blocks t h =
    let w : length (time_text string) ≡ size_time_string =
      omega (arith, length-turn string (0 ∷ [])) in
    put_time_blocks-put_blocks (time_text string) [] rows blocks w h
    ∙ ap (λ k. put_blocks k (time_text string) [] rows blocks) (sym w)
    ∙ put_blocks-copies (time_text string) [] rows blocks (omega (arith, w)) h

-- For blocks with at least one row each, a text that is not empty, whose length is the builder's
-- length or width, and a time string of 19 bytes, the five columns with a fixed value end without
-- running out of fuel: with the text for the string and the two integer columns and with the time
-- string and its NUL for the two time columns, they give the blocks spans of a text's length for
-- each row, one behind the other, and write as many copies as there are rows.
pub fixed_columns-copied :
    (text string : List ℕ) (rows : ℕ) (blocks : List ℕ)
    → 0 < length text
    → length string ≡ 19
    → Positive (rows ∷ blocks)
    → (build_column_string_fixed (length text) text rows blocks ≡ copied text (rows ∷ blocks))
      × (build_column_integer_fixed (length text) text rows blocks ≡ copied text (rows ∷ blocks))
      × (build_column_u_integer_fixed (length text) text rows blocks ≡ copied text (rows ∷ blocks))
      × (build_column_datetime_fixed string rows blocks ≡ copied (time_text string) (rows ∷ blocks))
      × (build_column_timestamp_fixed string rows blocks
          ≡ copied (time_text string) (rows ∷ blocks))
unfolding build_column_string_fixed build_column_integer_fixed build_column_u_integer_fixed
    build_column_datetime_fixed build_column_timestamp_fixed
fixed_columns-copied text string rows blocks p t h =
    let e = put_blocks-copies text [] rows blocks p h in
    let e' = put_time_blocks-copies string rows blocks t h in (e, e, e, e', e')
