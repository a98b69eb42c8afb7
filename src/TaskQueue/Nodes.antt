-- ===== src/TaskQueue/Nodes.antt =====
-- Rows of linked nodes in a memory.
use mysql_seed.Prelude.{ℕ, ◌≡◌, refl, sym, ◌∙◌, ◌≢◌, Option, none, some, List, [], ◌∷◌, ◌++◌}
use mysql_seed.Cells.Carry.{All}
use mysql_seed.TaskQueue.{TaskQueue, Memory}

-- the first node of a row, or what follows an empty one
abbrev pub first_or : List ℕ → Option ℕ → Option ℕ
first_or [] n = n
first_or (x ∷ _) _ = some x

-- the last node of a row, or what precedes an empty one
abbrev pub final : Option ℕ → List ℕ → Option ℕ
final p [] = p
final _ (x ∷ xs) = final (some x) xs

-- `Linked memory p xs n`: the nodes of `xs` are linked both ways in this order, from `p` to `n`.
abbrev pub Linked : Memory → Option ℕ → List ℕ → Option ℕ → Type 0
Linked memory p [] n = Unit
Linked memory p (x ∷ xs) n =
    ((memory x).prev ≡ p) × ((memory x).next ≡ first_or xs n) × Linked memory (some x) xs n

abbrev pub Fresh : ℕ → List ℕ → Type 0
Fresh a xs = All (λ x. x ≢ a) xs

abbrev pub Distinct : List ℕ → Type 0
Distinct [] = Unit
Distinct (x ∷ xs) = Fresh x xs × Distinct xs

module _ (P : ℕ → Type 0) where
  pub All-append : (xs ys : List ℕ) → All P xs → All P ys → All P (xs ++ ys)
  All-append [] ys h k = k
  All-append (x ∷ xs) ys h k = (h.0, All-append xs ys h.1 k)

  pub All-left : (xs ys : List ℕ) → All P (xs ++ ys) → All P xs
  All-left [] ys h = tt
  All-left (x ∷ xs) ys h = (h.0, All-left xs ys h.1)

  pub All-right : (xs ys : List ℕ) → All P (xs ++ ys) → All P ys
  All-right [] ys h = h
  All-right (x ∷ xs) ys h = All-right xs ys h.1

-- no node of the one row in the other
abbrev pub Apart : List ℕ → List ℕ → Type 0
Apart [] ys = Unit
Apart (x ∷ xs) ys = Fresh x ys × Apart xs ys

pub Distinct-split :
    (xs ys : List ℕ) → Distinct (xs ++ ys) → Distinct xs × Distinct ys × Apart xs ys
Distinct-split [] ys h = (tt, h, tt)
Distinct-split (x ∷ xs) ys h =
    let r = Distinct-split xs ys h.1 in
    ((All-left _ xs ys h.0, r.0), r.1, (All-right _ xs ys h.0, r.2))

pub Distinct-append :
    (xs ys : List ℕ) → Distinct xs → Distinct ys → Apart xs ys → Distinct (xs ++ ys)
Distinct-append [] ys h k a = k
Distinct-append (x ∷ xs) ys h k a = (All-append _ xs ys h.0 a.0, Distinct-append xs ys h.1 k a.1)

-- another memory with the same nodes
pub Linked-agree :
    (memory memory' : Memory) (p n : Option ℕ) (xs : List ℕ)
    → All (λ x. memory' x ≡ memory x) xs
    → Linked memory p xs n
    → Linked memory' p xs n
Linked-agree memory memory' p n [] e h = tt
Linked-agree memory memory' p n (x ∷ xs) e h =
    (rw e.0 h.0, rw e.0 h.1, Linked-agree memory memory' (some x) n xs e.1 h.2)

pub first_or-append :
    (xs ys : List ℕ) (n : Option ℕ) → first_or (xs ++ ys) n ≡ first_or xs (first_or ys n)
first_or-append [] ys n = refl
first_or-append (x ∷ xs) ys n = refl

module _ (memory : Memory) where
  pub Linked-split :
      (p n : Option ℕ) (xs ys : List ℕ)
      → Linked memory p (xs ++ ys) n
      → Linked memory p xs (first_or ys n) × Linked memory (final p xs) ys n
  Linked-split p n [] ys h = (tt, h)
  Linked-split p n (x ∷ xs) ys h =
      let r = Linked-split (some x) n xs ys h.2 in ((h.0, h.1 ∙ first_or-append xs ys n, r.0), r.1)

  pub Linked-append :
      (p n : Option ℕ) (xs ys : List ℕ)
      → Linked memory p xs (first_or ys n)
      → Linked memory (final p xs) ys n
      → Linked memory p (xs ++ ys) n
  Linked-append p n [] ys h k = k
  Linked-append p n (x ∷ xs) ys h k =
      (h.0, h.1 ∙ sym (first_or-append xs ys n), Linked-append (some x) n xs ys h.2 k)

-- the nodes of the one row that satisfy two predicates satisfy a third
pub All-both :
    (P Q R : ℕ → Type 0) (xs : List ℕ)
    → ((x : ℕ) → P x → Q x → R x)
    → All P xs
    → All Q xs
    → All R xs
All-both P Q R [] f h k = tt
All-both P Q R (x ∷ xs) f h k = (f x h.0 k.0, All-both P Q R xs f h.1 k.1)

pub All-imp : (P Q : ℕ → Type 0) (xs : List ℕ) → ((x : ℕ) → P x → Q x) → All P xs → All Q xs
All-imp P Q xs f h = All-both P P Q xs (λ x p _. f x p) h h

-- no node of the first row is the first of the second
pub Apart-Fresh : (xs ys : List ℕ) (y : ℕ) → Apart xs (y ∷ ys) → Fresh y xs
Apart-Fresh [] ys y h = tt
Apart-Fresh (x ∷ xs) ys y h = (λ e. h.0.0 (sym e), Apart-Fresh xs ys y h.1)

pub Apart-tail : (xs ys : List ℕ) (y : ℕ) → Apart xs (y ∷ ys) → Apart xs ys
Apart-tail [] ys y h = tt
Apart-tail (x ∷ xs) ys y h = (h.0.1, Apart-tail xs ys y h.1)

pub Apart-cons : (xs ys : List ℕ) (y : ℕ) → Fresh y xs → Apart xs ys → Apart xs (y ∷ ys)
Apart-cons [] ys y f h = tt
Apart-cons (x ∷ xs) ys y f h = ((λ e. f.0 (sym e), h.0), Apart-cons xs ys y f.1 h.1)

pub Apart-nil : (xs : List ℕ) → Apart xs []
Apart-nil [] = tt
Apart-nil (x ∷ xs) = (tt, Apart-nil xs)

pub Apart-sym : (xs ys : List ℕ) → Apart xs ys → Apart ys xs
Apart-sym [] ys h = Apart-nil ys
Apart-sym (x ∷ xs) ys h = Apart-cons ys xs x h.0 (Apart-sym xs ys h.1)

-- nothing but the nodes of the row may differ
abbrev pub SameOutside : List ℕ → Memory → Memory → Type 0
SameOutside xs memory memory' = (a : ℕ) → Fresh a xs → memory' a ≡ memory a

-- the tasks stay with their nodes
abbrev pub SameTasks : Memory → Memory → Type 0
SameTasks memory memory' = (a : ℕ) → (memory' a).task ≡ (memory a).task

pub All-SameOutside :
    (memory memory' : Memory) (xs ys : List ℕ)
    → SameOutside xs memory memory'
    → Apart ys xs
    → All (λ x. memory' x ≡ memory x) ys
All-SameOutside memory memory' xs [] s h = tt
All-SameOutside memory memory' xs (y ∷ ys) s h =
    (s y h.0, All-SameOutside memory memory' xs ys s h.1)

-- what the fields of a queue have to be for the nodes of a row, in this order
pub record Holds (memory : Memory) (queue : TaskQueue) (xs : List ℕ) : Type 0 where
  pub head : queue.head ≡ first_or xs none
  pub last : queue.last ≡ final none xs
  pub linked : Linked memory none xs none
  pub distinct : Distinct xs

-- a row is empty or has a last node
pub data Snoc : List ℕ → Type 0 where
  empty : Snoc []
  snoc : (xs : List ℕ) (x : ℕ) → Snoc (xs ++ x ∷ [])

pub Snoc-view : (xs : List ℕ) → Snoc xs
Snoc-view [] = empty
Snoc-view (x ∷ xs) = snoc_cons (Snoc-view xs)
  where
    snoc_cons : {ys : List ℕ} → Snoc ys → Snoc (x ∷ ys)
    snoc_cons empty = snoc [] x
    snoc_cons (snoc zs z) = snoc (x ∷ zs) z

pub final-append : (p : Option ℕ) (xs ys : List ℕ) → final p (xs ++ ys) ≡ final (final p xs) ys
final-append p [] ys = refl
final-append p (x ∷ xs) ys = final-append (some x) xs ys

pub final-snoc : (p : Option ℕ) (xs : List ℕ) (x : ℕ) → final p (xs ++ x ∷ []) ≡ some x
final-snoc p xs x = final-append p xs (x ∷ [])

pub first_or-snoc :
    (xs : List ℕ) (x : ℕ) (n : Option ℕ) → first_or (xs ++ x ∷ []) n ≡ first_or xs (some x)
first_or-snoc [] x n = refl
first_or-snoc (y ∷ ys) x n = refl

-- a row of its own stays one where other nodes change
pub Holds-SameOutside :
    (memory memory' : Memory) (queue : TaskQueue) (xs ys : List ℕ)
    → SameOutside ys memory memory'
    → Apart xs ys
    → Holds memory queue xs
    → Holds memory' queue xs
Holds-SameOutside memory memory' queue xs ys s a h = record {
  head = h.head;
  last = h.last;
  linked =
      Linked-agree memory memory' none none xs (All-SameOutside memory memory' ys xs s a) h.linked;
  distinct = h.distinct;
}

pub Apart-split : (xs ys zs : List ℕ) → Apart (xs ++ ys) zs → Apart xs zs × Apart ys zs
Apart-split [] ys zs h = (tt, h)
Apart-split (x ∷ xs) ys zs h = let r = Apart-split xs ys zs h.1 in ((h.0, r.0), r.1)

pub first_or-behind :
    (xs ys : List ℕ) (x : ℕ) (n : Option ℕ)
    → first_or ((xs ++ x ∷ []) ++ ys) n ≡ first_or xs (some x)
first_or-behind [] ys x n = refl
first_or-behind (_ ∷ xs) ys x n = refl
