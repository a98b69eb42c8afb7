-- ===== src/Column/Group.antt =====
-- The loop over groups and blocks (`write_cells`) against the reference `lay`.
use mysql_seed.Prelude.{
  ℕ, zero, suc, ◌+◌, ◌-◌, ◌^◌, ◌≤◌, ◌<◌, ◌≡◌, inl, inr, refl, sym, ap, ◌∙◌, Option, some, ◌>>=◌,
  List, [], ◌∷◌, ◌++◌, arith, lt→ltb, le→ltb, length, replicate, sum,
}
use mysql_seed.Table.{sub_size}
use mysql_seed.Column.{
  Span, Writer, string_stop, put_copies, next_group, end_block, span_of, begin_block, write_cells,
  build_column_u_integer_unique_group, build_column_integer_unique_group,
}
use mysql_seed.Column.Cells.{
  lay, cells_of, IsSizes, flat, lay-copies, replicate-add, sub_size-one, less-cases, lay-all,
  cells_of-length, lay-first,
}

module _ (counter text : ℕ → List ℕ) (count : ℕ)
    (stored : (i : ℕ) → i < count → string_stop (counter i) ≡ some (text i)) where
  -- what the loop is to give for the rest of its cells
  rest_of : Writer → List ℕ → Option (List Span × List ℕ)
  rest_of w blocks =
      lay w.rem_cells w.cell w.out
        (replicate w.rem_group w.group_string ++ cells_of text (suc w.count_ptr) w.group) blocks

  Ready : ℕ → Writer → List ℕ → Type 0
  Ready fuel w blocks =
      (w.count_ptr + length w.group < count)
      × (length w.group + length blocks < fuel)
      × IsSizes w.group

  next_group-rest :
      (w : Writer) (fuel : ℕ) (group blocks : List ℕ) (k : Writer → Option (List Span × List ℕ))
      → w.group ≡ group
      → w.rem_group < w.rem_cells
      → Ready (suc fuel) w blocks
      → ((w' : Writer) → Ready fuel w' blocks → k w' ≡ rest_of w' blocks)
      → (next_group counter w group >>= k) ≡ rest_of w blocks
  unfolding next_group rest_of Ready
  next_group-rest w fuel [] blocks k e l h hk =
      let m = w.rem_cells - (w.rem_group + 1) in
      rw e (
        sym (
          lay-copies w.rem_group (suc m) w.rem_cells w.cell w.group_string w.out [] blocks
            (omega arith)))
  next_group-rest w fuel (g ∷ group) blocks k e l h hk =
      let m = w.rem_cells - (w.rem_group + 1) in
      let r = rw e at h in
      let next : string_stop (counter (suc w.count_ptr)) ≡ some (text (suc w.count_ptr)) =
        stored (suc w.count_ptr) (omega (arith, r.0)) in
      let size = sub_size-one g r.2.0 r.2.1 in
      rw (e, next)
        (hk
            (record {
              out = put_copies w.rem_group w.group_string w.out ++ text (suc w.count_ptr);
              group_string = text (suc w.count_ptr);
              count_ptr = suc w.count_ptr;
              group = group;
              rem_group = sub_size g 1;
              cell = w.cell;
              rem_cells = m;
            })
            (omega (arith, r.0), omega (arith, r.1), r.2.2)
          ∙ sym (
              lay-copies w.rem_group (suc m) w.rem_cells w.cell w.group_string w.out
                (cells_of text (suc w.count_ptr) (g ∷ group)) blocks (omega arith)
              ∙ ap
                  (λ n.
                    lay (suc m) w.cell (put_copies w.rem_group w.group_string w.out)
                      (replicate n (text (suc w.count_ptr))
                        ++ cells_of text (suc (suc w.count_ptr)) group)
                      blocks)
                  size))

  end_block-lay :
      (w : Writer) (blocks : List ℕ)
      → w.rem_cells ≤ w.rem_group
      → rest_of w blocks
        ≡ lay 0 w.cell
            (put_copies w.rem_cells w.group_string w.out)
            (replicate (w.rem_group - w.rem_cells) w.group_string
              ++ cells_of text (suc w.count_ptr) w.group)
            blocks
  unfolding rest_of
  end_block-lay w blocks l =
      let cells = cells_of text (suc w.count_ptr) w.group in
      let d = w.rem_group - w.rem_cells in
      ap (λ c. lay w.rem_cells w.cell w.out c blocks)
        (replicate-add w.rem_cells d w.rem_group w.group_string cells (omega arith))
      ∙ lay-copies w.rem_cells 0 w.rem_cells w.cell w.group_string w.out
          (replicate d w.group_string ++ cells) blocks (omega arith)

  end_block-rest :
      (w : Writer) (fuel : ℕ) (blocks : List ℕ) (k : Writer → List ℕ → Option (List Span × List ℕ))
      → w.rem_cells ≤ w.rem_group
      → Ready (suc fuel) w blocks
      → ((w' : Writer) (rest : List ℕ) → Ready fuel w' rest → k w' rest ≡ rest_of w' rest)
      → (elim blocks [
        | [] ↦ some (span_of (end_block w) ∷ [], (end_block w).out)
        | rows ∷ rest ↦
            k (begin_block (end_block w) rows) rest >>= λ r. some (span_of (end_block w) ∷ r.0, r.1)
      ])
        ≡ rest_of w blocks
  unfolding end_block rest_of Ready
  end_block-rest w fuel [] k l h hk = sym (end_block-lay w [] l)
  end_block-rest w fuel (rows ∷ rest) k l h hk =
      ap (λ o. o >>= λ r. some (span_of (end_block w) ∷ r.0, r.1))
        (hk (begin_block (end_block w) rows) rest (h.0, omega (arith, h.1), h.2))
      ∙ sym (end_block-lay w (rows ∷ rest) l)

  write_cells-rest :
      (fuel : ℕ) (w : Writer) (blocks : List ℕ)
      → Ready fuel w blocks
      → write_cells fuel counter w blocks ≡ rest_of w blocks
  unfolding write_cells Ready
  write_cells-rest zero w blocks h = absurd (omega (arith, h.1))
  write_cells-rest (suc fuel) w blocks h = elim (less-cases w.rem_group w.rem_cells) [
    | inl l ↦
        rw (lt→ltb w.rem_group w.rem_cells l, write_cells)
          (next_group-rest w fuel w.group blocks (λ w'. write_cells fuel counter w' blocks) refl l h
            (λ w' r. write_cells-rest fuel w' blocks r))
    | inr l ↦
        rw (le→ltb w.rem_group w.rem_cells l, write_cells)
          (end_block-rest w fuel blocks (λ w' rest. write_cells fuel counter w' rest) l h
            (λ w' rest r. write_cells-rest fuel w' rest r))
  ]

  -- Let the strings at the counter's pointers of the groups be the texts, "1" the first, let the
  -- first block and all groups have at least one row and the first block and the groups fewer than
  -- 2 ^ 64, and as many rows in the groups as in the blocks. Then the two-way loops of
  -- `build_column_u_integer_unique_group` and `build_column_integer_unique_group`, on more fuel
  -- than there are further groups and blocks, return; each has written the text of each group as
  -- often as the group has rows, and the spans of the blocks are those that come of giving each
  -- block one cell after the other, as many as it has rows (`lay`).
  pub build_column_u_integer_unique_group-lay :
      (fuel group : ℕ) (groups : List ℕ) (rows : ℕ) (blocks : List ℕ)
      → text 0 ≡ b'1' ∷ 0 ∷ []
      → length groups < count
      → IsSizes (group ∷ groups)
      → 0 < rows
      → rows < 2 ^ 64
      → sum (group ∷ groups) ≡ sum (rows ∷ blocks)
      → length groups + length blocks < fuel
      → let cells = cells_of text 0 (group ∷ groups) in
        (spans : List Span) × (lay rows 0 [] cells blocks ≡ some (spans, flat cells))
        × (build_column_u_integer_unique_group fuel counter group groups rows blocks
            ≡ some (spans, flat cells))
        × (build_column_integer_unique_group fuel counter group groups rows blocks
            ≡ some (spans, flat cells))
  unfolding build_column_u_integer_unique_group build_column_integer_unique_group rest_of Ready
  build_column_u_integer_unique_group-lay fuel group groups rows blocks one few sizes p l total f =
      let (spans, r) =
        lay-all rows 0 [] (cells_of text 0 (group ∷ groups)) blocks
          (cells_of-length text 0 (group ∷ groups) ∙ total) in
      let first = sub_size-one group sizes.0 sizes.1 in
      let cell = sub_size-one rows p l in
      let e : build_column_u_integer_unique_group fuel counter group groups rows blocks
          ≡ some (spans, flat (cells_of text 0 (group ∷ groups))) =
        write_cells-rest fuel _ blocks (omega (arith, few), f, sizes.2)
        ∙ sym (
            lay-first group (sub_size group 1) rows (sub_size rows 1) (text 0) (b'1' ∷ 0 ∷ [])
              (cells_of text 1 groups) blocks first cell one)
        ∙ r in
      (spans, r, e, e)
