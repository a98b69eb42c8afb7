-- ===== src/ThreadPool/Count.antt =====
-- How often a node stands in a row, and what the workers add up to.
use mysql_seed.Prelude.{
  ℕ, ◌+◌, ◌<◌, ◌≤◌, ◌≡◌, refl, sym, ap, inl, inr, List, [], ◌∷◌, ◌++◌, arith, ◌==◌, if◌then◌else◌,
  eq→==, ne→==, ==→eq, Bool-cases,
}
use mysql_seed.TaskQueue.Nodes.{Fresh, Apart}

abbrev pub same : ℕ → ℕ → ℕ
same x y = if x == y then 1 else 0

pub same_self : (x : ℕ) → same x x ≡ 1
same_self x = rw (eq→== x x refl) refl

abbrev pub count : ℕ → List ℕ → ℕ
count x [] = 0
count x (y ∷ ys) = same x y + count x ys

pub count-append : (x : ℕ) (xs ys : List ℕ) → count x (xs ++ ys) ≡ count x xs + count x ys
count-append x [] ys = omega arith
count-append x (y ∷ xs) ys = omega (arith, count-append x xs ys)

pub count-Fresh : (x : ℕ) (xs : List ℕ) → count x xs ≡ 0 → Fresh x xs
count-Fresh x [] h = tt
count-Fresh x (y ∷ xs) h =
    (λ e. absurd (omega (arith, same_self x, ap (same x) e)), count-Fresh x xs (omega arith))

pub Fresh-count : (x : ℕ) (xs : List ℕ) → Fresh x xs → count x xs ≡ 0
Fresh-count x [] h = refl
Fresh-count x (y ∷ xs) h = rw (ne→== x y (λ e. h.0 (sym e)), Fresh-count x xs h.1) refl

pub count-Apart : (xs ys : List ℕ) → ((x : ℕ) → count x xs + count x ys ≤ 1) → Apart xs ys
count-Apart [] ys h = tt
count-Apart (x ∷ xs) ys h = (
  count-Fresh x ys (omega (arith, h x, same_self x)),
  count-Apart xs ys (λ z. omega (arith, h z)),
)

-- a node of a row splits it
pub count-split :
    (x : ℕ) (xs : List ℕ) → 0 < count x xs → (ys : List ℕ) × (zs : List ℕ) × (xs ≡ ys ++ x ∷ zs)
count-split x [] h = absurd (omega arith)
count-split x (y ∷ xs) h = elim (Bool-cases (x == y)) [
  | inl e ↦ ([], xs, ap (λ z. z ∷ xs) (sym (==→eq x y e)))
  | inr e ↦ let (ys, zs, p) = count-split x xs (ground arith) in (y ∷ ys, zs, ap (λ l. y ∷ l) p)
]

unfoldable pub total : {A : Type 0} → (A → ℕ) → List A → ℕ
total f [] = 0
total f (p ∷ ps) = f p + total f ps

total-between :
    {A : Type 0} (f : A → ℕ) (ps : List A) (p : A) (qs : List A)
    → total f (ps ++ p ∷ qs) ≡ total f ps + f p + total f qs
unfolding total
total-between f [] p qs = omega arith
total-between f (r ∷ ps) p qs = omega (arith, total-between f ps p qs)

-- one of a row is exchanged
pub total-exchange :
    {A : Type 0} (f : A → ℕ) (rs ps : List A) (p p' : A) (qs : List A)
    → rs ≡ ps ++ p ∷ qs
    → total f (ps ++ p' ∷ qs) + f p ≡ total f rs + f p'
total-exchange f rs ps p p' qs e =
    omega (arith, total-between f ps p qs, total-between f ps p' qs, ap (total f) e)

pub count-between :
    (a : ℕ) (xs : List ℕ) (x : ℕ) (ys : List ℕ)
    → count a (xs ++ x ∷ ys) ≡ count a (xs ++ ys) + same a x
count-between a xs x ys = omega (arith, count-append a xs (x ∷ ys), count-append a xs ys)
