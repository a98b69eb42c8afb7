-- ===== src/Counter/Shown.antt =====
-- The texts of a counter in memory, and what it means that a range of them was written.
use mathlib.Core.List.{reverse, reverse-cons}
use mysql_seed.Prelude.{
  ℕ, zero, suc, ◌+◌, ◌≤◌, ◌<◌, ◌≡◌, ◌⊎◌, inl, inr, refl, ap, ◌∙◌, List, [], ◌∷◌, ◌++◌, arith,
  length, length-append,
}
use mysql_seed.Bytes.{bytes, bytes-same}
use mysql_seed.Cells.Carry.{All}
use mysql_seed.Cells.Digits.{IsDigit, decimal_value}
use mysql_seed.Decimal.{uint_digit_count}
use mysql_seed.Counter.Size.{size_of_texts}
use mysql_seed.Counter.Fill.{Texts}

length-reverse : (cs : List ℕ) → length (reverse cs) ≡ length cs
length-reverse [] = refl
length-reverse (c ∷ cs) =
    ap length (reverse-cons c cs)
    ∙ length-append (reverse cs) (c ∷ [])
    ∙ omega (arith, length-reverse cs)

pub length-text : (cs : List ℕ) → length (reverse cs ++ 0 ∷ []) ≡ length cs + 1
length-text cs = length-append (reverse cs) (0 ∷ []) ∙ omega (arith, length-reverse cs)

-- The pointer at index `i` leads to the decimal text of `i + 1`, back to front `cells`, and its NUL.
pub record Shown (texts : Texts) (i : ℕ) : Type 0 where
  pub pointer : texts.pointers i ≡ size_of_texts i
  pub cells : List ℕ
  pub digits : All IsDigit cells
  pub number : decimal_value cells ≡ i + 1
  pub count : length cells ≡ uint_digit_count (i + 1)
  pub text : bytes texts.digits (texts.pointers i) (length cells + 1) ≡ reverse cells ++ 0 ∷ []

pub lt-cases : (i m : ℕ) → (i < m) ⊎ (m ≤ i)
lt-cases i m = omega arith

size_mono : (n m : ℕ) → n ≤ m → size_of_texts n ≤ size_of_texts m
unfolding size_of_texts
size_mono n zero h = let e : n ≡ 0 = omega arith in rw e (omega arith)
size_mono n (suc m) h = elim (lt-cases m n) [
  | inl l ↦ let e : n ≡ suc m = omega arith in rw e (omega arith)
  | inr l ↦ let more = size_mono n m l in omega arith
]

pub size_suc : (n : ℕ) → size_of_texts (suc n) ≡ size_of_texts n + (uint_digit_count (n + 1) + 1)
unfolding size_of_texts
size_suc n = let e : n + 1 ≡ suc n = omega arith in rw e refl

size_next : (n : ℕ) → size_of_texts (n + 1) ≡ size_of_texts n + (uint_digit_count (n + 1) + 1)
unfolding size_of_texts
size_next n = let e : n + 1 ≡ suc n = omega arith in rw e refl

-- The text of an index stays where no byte of it is written.
keep :
    {texts texts' : Texts} {i : ℕ}
    → Shown texts i
    → texts'.pointers i ≡ texts.pointers i
    → ((b : ℕ) → size_of_texts i ≤ b → b < size_of_texts (i + 1) → texts'.digits b ≡ texts.digits b)
    → Shown texts' i
keep {texts} {texts'} {i} s p d = record {
  pointer = p ∙ s.pointer;
  cells = s.cells;
  digits = s.digits;
  number = s.number;
  count = s.count;
  text = rw p (
      bytes-same texts.digits texts'.digits (texts.pointers i) (length s.cells + 1)
        (λ b l u. d b (omega (arith, s.pointer)) (omega (arith, s.pointer, s.count, size_next i)))
      ∙ s.text);
}

-- From `before` to `after`, the texts of the indices from `from` to before `until` were written.
pub record Filled (before after : Texts) (from until : ℕ) : Type 0 where
  pub shown : (i : ℕ) → from ≤ i → i < until → Shown after i
  pub pointers_below : (i : ℕ) → i < from → after.pointers i ≡ before.pointers i
  pub pointers_above : (i : ℕ) → until ≤ i → after.pointers i ≡ before.pointers i
  pub digits_below : (b : ℕ) → b < size_of_texts from → after.digits b ≡ before.digits b
  pub digits_above : (b : ℕ) → size_of_texts until ≤ b → after.digits b ≡ before.digits b

module _ {a b c : Texts} {l m n : ℕ} (lm : l ≤ m) (mn : m ≤ n) where
  pub upwards : Filled a b l m → Filled b c m n → Filled a c l n
  upwards f g = record {
    shown = λ i p q. elim (lt-cases i m) [
      | inl h ↦
          keep (f.shown i p h) (g.pointers_below i h) (λ x u v.
            let most = size_mono (i + 1) m (omega arith) in g.digits_below x (omega arith))
      | inr h ↦ g.shown i h q
    ];
    pointers_below = λ i p. g.pointers_below i (omega arith) ∙ f.pointers_below i p;
    pointers_above = λ i p. g.pointers_above i p ∙ f.pointers_above i (omega arith);
    digits_below =
        λ x p. let most = size_mono l m lm in g.digits_below x (omega arith) ∙ f.digits_below x p;
    digits_above =
        λ x p. let most = size_mono m n mn in g.digits_above x p ∙ f.digits_above x (omega arith);
  }

  pub downwards : Filled a b m n → Filled b c l m → Filled a c l n
  downwards f g = record {
    shown = λ i p q. elim (lt-cases i m) [
      | inl h ↦ g.shown i p h
      | inr h ↦
          keep (f.shown i h q) (g.pointers_above i h)
            (λ x u v. let most = size_mono m i h in g.digits_above x (omega arith))
    ];
    pointers_below = λ i p. g.pointers_below i p ∙ f.pointers_below i (omega arith);
    pointers_above = λ i p. g.pointers_above i (omega arith) ∙ f.pointers_above i p;
    digits_below =
        λ x p. let most = size_mono l m lm in g.digits_below x p ∙ f.digits_below x (omega arith);
    digits_above =
        λ x p. let most = size_mono m n mn in g.digits_above x (omega arith) ∙ f.digits_above x p;
  }
