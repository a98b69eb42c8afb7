-- ===== src/TaskQueue/Relink.antt =====
-- The ends of a row in a memory that differs from another at one end.
use mysql_seed.Prelude.{ℕ, ◌≡◌, ◌≢◌, sym, ap, ◌∙◌, Option, none, some, List, [], ◌∷◌, ◌++◌}
use mysql_seed.Cells.Carry.{All}
use mysql_seed.TaskQueue.{TaskNode, Memory}
use mysql_seed.TaskQueue.Nodes.{
  final, Linked, Distinct, All-both, Apart, Distinct-split, Linked-agree, Linked-append,
  SameOutside, final-snoc, first_or-snoc, Apart-Fresh, Apart-split, All-left,
}

-- A row and the nodes at its ends, with what precedes and what follows it; the memory is the same
-- inside.
module _ (memory memory' : Memory) where
  pub Linked-next :
      (p n n' : Option ℕ) (xs : List ℕ) (y : ℕ)
      → All (λ x. memory' x ≡ memory x) xs
      → (memory' y).prev ≡ (memory y).prev
      → (memory' y).next ≡ n'
      → Linked memory p (xs ++ y ∷ []) n
      → Linked memory' p (xs ++ y ∷ []) n'
  Linked-next p n n' [] y e f g h = (f ∙ h.0, g, tt)
  Linked-next p n n' (x ∷ xs) y e f g h = (
    ap (λ (t : TaskNode). t.prev) e.0 ∙ h.0,
    ap (λ (t : TaskNode). t.next) e.0 ∙ h.1 ∙ first_or-snoc xs y n ∙ sym (first_or-snoc xs y n'),
    Linked-next (some x) n n' xs y e.1 f g h.2,
  )

  pub Linked-prev :
      (p p' n : Option ℕ) (y : ℕ) (ys : List ℕ)
      → All (λ x. memory' x ≡ memory x) ys
      → (memory' y).prev ≡ p'
      → (memory' y).next ≡ (memory y).next
      → Linked memory p (y ∷ ys) n
      → Linked memory' p' (y ∷ ys) n
  Linked-prev p p' n y ys e f g h = (f, g ∙ h.1, Linked-agree memory memory' (some y) n ys e h.2)

  -- Joins two rows: the last node of the first and the first node of the second are relinked.
  Linked-join :
      (p n q o : Option ℕ) (xs : List ℕ) (x y : ℕ) (ys : List ℕ)
      → All (λ z. memory' z ≡ memory z) xs
      → All (λ z. memory' z ≡ memory z) ys
      → (memory' x).prev ≡ (memory x).prev
      → (memory' x).next ≡ some y
      → (memory' y).prev ≡ some x
      → (memory' y).next ≡ (memory y).next
      → Linked memory p (xs ++ x ∷ []) o
      → Linked memory q (y ∷ ys) n
      → Linked memory' p ((xs ++ x ∷ []) ++ y ∷ ys) n
  Linked-join p n q o xs x y ys e f a b c d h k =
      Linked-append memory' p n (xs ++ x ∷ []) (y ∷ ys) (Linked-next p o (some y) xs x e a b h)
        (Linked-prev q (final p (xs ++ x ∷ [])) n y ys f (c ∙ sym (final-snoc p xs x)) d k)

  -- the same from the rows alone, where no other node is written
  pub Linked-concat :
      (n q o : Option ℕ) (xs : List ℕ) (x y : ℕ) (ys : List ℕ)
      → Distinct (xs ++ x ∷ [])
      → Distinct (y ∷ ys)
      → Apart (xs ++ x ∷ []) (y ∷ ys)
      → SameOutside (x ∷ y ∷ []) memory memory'
      → (memory' x).prev ≡ (memory x).prev
      → (memory' x).next ≡ some y
      → (memory' y).prev ≡ some x
      → (memory' y).next ≡ (memory y).next
      → Linked memory none (xs ++ x ∷ []) o
      → Linked memory q (y ∷ ys) n
      → Linked memory' none ((xs ++ x ∷ []) ++ y ∷ ys) n
  Linked-concat n q o xs x y ys d k a s =
      let fresh_x = Apart-Fresh xs [] x (Distinct-split xs (x ∷ []) d).2 in
      let fresh_y = All-left (λ z. z ≢ y) xs (x ∷ []) (Apart-Fresh (xs ++ x ∷ []) ys y a) in
      let other = λ (z : ℕ) (g : z ≢ x) (h : z ≢ y). s z (λ e. g (sym e), (λ e. h (sym e), tt)) in
      Linked-join none n q o xs x y ys
        (All-both (λ z. z ≢ x) (λ z. z ≢ y) _ xs other fresh_x fresh_y)
        (All-both (λ z. z ≢ x) (λ z. z ≢ y) _ ys other (Apart-split xs (x ∷ []) (y ∷ ys) a).1.0.1
          k.0)
