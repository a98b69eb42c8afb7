-- ===== src/Column.antt =====
-- build_column_u_integer_unique_group of generate/column_u_integer.c, and build_column_integer_unique_group
-- of generate/column_integer.c, which is the same text: the cells of a column whose rows
-- are cut into groups, each row of a group having the number of the group. The text written so far,
-- from the end of the group sizes on, is the list `out`, whose end is `ptr`; the bytes from
-- `group_string` on are kept with it, since they stay as they are. A pointer of the counter is an index,
-- and `counter` gives the bytes from where it leads to.
pub mod Cells
pub mod Group
pub mod Unique
pub mod Fixed
pub mod Times
pub mod Texts
use mysql_seed.Prelude.{
  ℕ, zero, suc, ◌+◌, ◌-◌, ◌*◌, Bool, true, false, Option, none, some, ◌>>=◌, List, [], ◌∷◌, ◌++◌,
  ltb, ◌==◌, if◌then◌else◌, length,
}
use mysql_seed.Table.{sub_size}

-- what the column adds to a block of rows: where its cells begin, and how many bytes they are
pub record Span : Type 0 where
  pub cell : ℕ
  pub size : ℕ

-- `group` are the sizes behind that of the current group.
pub record Writer : Type 0 where
  pub out : List ℕ
  pub group_string : List ℕ
  pub count_ptr : ℕ
  pub group : List ℕ
  pub rem_group : ℕ
  pub cell : ℕ
  pub rem_cells : ℕ

-- the bytes that put_string_stop copies: those up to the NUL, and the NUL
unfoldable pub string_stop : List ℕ → Option (List ℕ)
string_stop [] = none
string_stop (c ∷ string) =
    let rest = string_stop string in if c == 0 then some (c ∷ []) else (rest >>= λ r. some (c ∷ r))

-- the loops of put_digits
unfoldable pub put_copies : ℕ → List ℕ → List ℕ → List ℕ
put_copies zero text out = out
put_copies (suc n) text out = put_copies n text (out ++ text)

-- the branch for `rem_cells > rem_group`: the next group begins in this block
unfoldable pub next_group : (ℕ → List ℕ) → Writer → List ℕ → Option Writer
next_group counter w [] = none
next_group counter w (g ∷ group) = do
  text ← string_stop (counter (suc w.count_ptr))
  some (record {
    out = put_copies w.rem_group w.group_string w.out ++ text;
    group_string = text;
    count_ptr = suc w.count_ptr;
    group = group;
    rem_group = sub_size g 1;
    cell = w.cell;
    rem_cells = w.rem_cells - (w.rem_group + 1);
  })

-- the other branch: the block ends
unfoldable pub end_block : Writer → Writer
end_block w = record w {
  out = put_copies w.rem_cells w.group_string w.out;
  rem_group = w.rem_group - w.rem_cells;
}

abbrev pub span_of : Writer → Span
span_of w = record { cell = w.cell; size = length w.out - w.cell }

abbrev pub begin_block : Writer → ℕ → Writer
begin_block w rows = record w { cell = length w.out; rem_cells = rows }

-- The loop on fuel, one for each group and each block, with `blocks` the row counts of the blocks behind
-- the current one: the spans of the blocks, and all that was written.
unfoldable pub write_cells : ℕ → (ℕ → List ℕ) → Writer → List ℕ → Option (List Span × List ℕ)
write_cells zero counter w blocks = none
write_cells (suc fuel) counter w blocks = elim (ltb w.rem_group w.rem_cells) [
  | true ↦ next_group counter w w.group >>= λ w'. write_cells fuel counter w' blocks
  | false ↦
      let ended = end_block w in
      elim blocks [
        | [] ↦ some (span_of ended ∷ [], ended.out)
        | rows ∷ rest ↦ write_cells fuel counter (begin_block ended rows) rest >>= λ r.
            some (span_of ended ∷ r.0, r.1)
      ]
]

-- `group` and `groups` are what the partitioner has stored, `rows` and `blocks` the row counts.
unfoldable pub build_column_u_integer_unique_group :
    ℕ → (ℕ → List ℕ) → ℕ → List ℕ → ℕ → List ℕ → Option (List Span × List ℕ)
build_column_u_integer_unique_group fuel counter group groups rows blocks =
    let one = b'1' ∷ 0 ∷ [] in
    write_cells fuel counter
      (record {
        out = one;
        group_string = one;
        count_ptr = 0;
        group = groups;
        rem_group = sub_size group 1;
        cell = 0;
        rem_cells = sub_size rows 1;
      })
      blocks

-- The same of generate/column_integer.c.
unfoldable pub build_column_integer_unique_group :
    ℕ → (ℕ → List ℕ) → ℕ → List ℕ → ℕ → List ℕ → Option (List Span × List ℕ)
build_column_integer_unique_group fuel counter group groups rows blocks =
    let one = b'1' ∷ 0 ∷ [] in
    write_cells fuel counter
      (record {
        out = one;
        group_string = one;
        count_ptr = 0;
        group = groups;
        rem_group = sub_size group 1;
        cell = 0;
        rem_cells = sub_size rows 1;
      })
      blocks
