-- ===== src/Column/Cells.antt =====
-- The reference for build_column_u_integer_unique_group: the cells, one after the other.
use mathlib.Core.List.{append_assoc, append-nil}
use mysql_seed.Prelude.{
  ℕ, zero, suc, ◌+◌, ◌-◌, ◌^◌, ◌≤◌, ◌<◌, ◌≡◌, ◌⊎◌, refl, sym, ap, ◌∙◌, Option, none, some, ◌>>=◌,
  List, [], ◌∷◌, ◌++◌, arith, length, replicate, length-append, length-replicate, sum,
}
use mysql_seed.Table.{sub_size}
use mysql_seed.Column.{Span, put_copies}

-- The reference: one cell after the other goes to the current block, which still takes `n` of them.
abbrev pub lay : ℕ → ℕ → List ℕ → List (List ℕ) → List ℕ → Option (List Span × List ℕ)
lay zero cell out cells [] = some ((record { cell = cell; size = length out - cell }) ∷ [], out)
lay zero cell out cells (rows ∷ blocks) = lay rows (length out) out cells blocks >>= λ r.
    some ((record { cell = cell; size = length out - cell }) ∷ r.0, r.1)
lay (suc n) cell out [] blocks = none
lay (suc n) cell out (c ∷ cells) blocks = lay n cell (out ++ c) cells blocks

-- the cells of the groups, the first of them with the text `i`
abbrev pub cells_of : (ℕ → List ℕ) → ℕ → List ℕ → List (List ℕ)
cells_of text i [] = []
cells_of text i (g ∷ groups) = replicate g (text i) ++ cells_of text (suc i) groups

-- sizes of groups that a size_t can hold, none of them empty
abbrev pub IsSizes : List ℕ → Type 0
IsSizes [] = Unit
IsSizes (g ∷ groups) = (0 < g) × (g < 2 ^ 64) × IsSizes groups

pub replicate-add :
    (k d n : ℕ) (c : List ℕ) (rest : List (List ℕ))
    → n ≡ k + d
    → replicate n c ++ rest ≡ replicate k c ++ (replicate d c ++ rest)
replicate-add zero d n c rest e = let e' : n ≡ d = omega (arith, e) in rw e' refl
replicate-add (suc k) d n c rest e =
    let e' : n ≡ suc (k + d) = omega (arith, e) in
    rw e' (ap (c ∷◌) (replicate-add k d (k + d) c rest refl))

pub lay-copies :
    (k m n cell : ℕ) (c out : List ℕ) (rest : List (List ℕ)) (blocks : List ℕ)
    → n ≡ k + m
    → lay n cell out (replicate k c ++ rest) blocks ≡ lay m cell (put_copies k c out) rest blocks
unfolding put_copies
lay-copies zero m n cell c out rest blocks e = let e' : n ≡ m = omega (arith, e) in rw e' refl
lay-copies (suc k) m n cell c out rest blocks e =
    let e' : n ≡ suc (k + m) = omega (arith, e) in
    rw e' (lay-copies k m (k + m) cell c (out ++ c) rest blocks refl)

pub sub_size-one : (g : ℕ) → 0 < g → g < 2 ^ 64 → g ≡ suc (sub_size g 1)
unfolding sub_size
sub_size-one g h l = omega arith

pub less-cases : (a b : ℕ) → (a < b) ⊎ (b ≤ a)
less-cases a b = omega arith

abbrev pub flat : List (List ℕ) → List ℕ
flat [] = []
flat (c ∷ cells) = c ++ flat cells

-- With a cell for each row there is a result, and it has all cells.
pub lay-all :
    (n cell : ℕ) (out : List ℕ) (cells : List (List ℕ)) (blocks : List ℕ)
    → length cells ≡ n + sum blocks
    → (spans : List Span) × (lay n cell out cells blocks ≡ some (spans, out ++ flat cells))
lay-all zero cell out [] [] e = (
  record { cell = cell; size = length out - cell } ∷ [],
  ap (λ o. some (record { cell = cell; size = length out - cell } ∷ [], o)) (sym (append-nil out)),
)
lay-all zero cell out (c ∷ cells) [] e = absurd (omega (arith, e))
lay-all zero cell out cells (rows ∷ blocks) e =
    let (spans, r) = lay-all rows (length out) out cells blocks (e ∙ omega arith) in
    (record { cell = cell; size = length out - cell } ∷ spans, rw r refl)
lay-all (suc n) cell out [] blocks e = absurd (omega (arith, e))
lay-all (suc n) cell out (c ∷ cells) blocks e =
    let (spans, r) = lay-all n cell (out ++ c) cells blocks (omega (arith, e)) in
    (spans, r ∙ ap (λ o. some (spans, o)) (append_assoc out c (flat cells)))

pub cells_of-length :
    (text : ℕ → List ℕ) (i : ℕ) (groups : List ℕ) → length (cells_of text i groups) ≡ sum groups
cells_of-length text i [] = refl
cells_of-length text i (g ∷ groups) = omega (
  arith,
  length-append (replicate g (text i)) (cells_of text (suc i) groups),
  length-replicate g (text i),
  cells_of-length text (suc i) groups,
)

-- The first cell is written before the loop.
pub lay-first :
    (g g' n n' : ℕ) (c one : List ℕ) (cells : List (List ℕ)) (blocks : List ℕ)
    → g ≡ suc g'
    → n ≡ suc n'
    → c ≡ one
    → lay n 0 [] (replicate g c ++ cells) blocks ≡ lay n' 0 one (replicate g' one ++ cells) blocks
lay-first g g' n n' c one cells blocks eg en ec =
    rw (eg, en) (ap (λ t. lay (suc n') 0 [] (replicate (suc g') t ++ cells) blocks) ec)
