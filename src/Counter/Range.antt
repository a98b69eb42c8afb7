-- ===== src/Counter/Range.antt =====
-- The loop that writes the texts of one magnitude (SET_RANGE_DIGITS_MAG_UPTO).
use mathlib.Core.List.{reverse}
use mysql_seed.Prelude.{
  ℕ, zero, suc, ◌+◌, ◌^◌, ◌≤◌, ◌<◌, ◌≡◌, sym, ◌∙◌, List, [], ◌∷◌, ◌++◌, arith, length,
}
use mysql_seed.Bytes.{store-same, store-other, put-before, put-behind, bytes-put}
use mysql_seed.Cells.Carry.{All}
use mysql_seed.Cells.Digits.{IsDigit, decimal_value}
use mysql_seed.Decimal.{uint_digit_count}
use mysql_seed.Counter.{count_buffer_increment}
use mysql_seed.Counter.Size.{size_of_texts}
use mysql_seed.Counter.Increment.{count_buffer_increment-add_one}
use mysql_seed.Counter.Level.{digit_count_at}
use mysql_seed.Counter.Fill.{Texts, set_range, write}
use mysql_seed.Counter.Shown.{length-text, Filled, size_suc, upwards}

-- The row of digits that stands for the number of an index.
pub record Row (mag current pointer : ℕ) (cells : List ℕ) : Type 0 where
  pub digits : All IsDigit cells
  pub count : length cells ≡ mag + 1
  pub number : decimal_value cells ≡ current + 1
  pub first : 10 ^ mag ≤ current + 1
  pub last : current + 1 < 10 ^ (mag + 1)
  pub place : pointer ≡ size_of_texts current

uint_digit_count-Row :
    {mag current pointer : ℕ} {cells : List ℕ}
    → mag < 8
    → Row mag current pointer cells
    → uint_digit_count (current + 1) ≡ mag + 1
uint_digit_count-Row {mag} {current} h r = digit_count_at mag (current + 1) h r.first r.last

write-Filled :
    (mag current pointer : ℕ) (cells : List ℕ) (texts : Texts)
    → mag < 8
    → Row mag current pointer cells
    → Filled texts (write texts current pointer cells) current (suc current)
unfolding write
write-Filled mag current pointer cells texts h r = record {
  shown = λ i p q.
      let e : i ≡ current = omega arith in
      rw e (record {
        pointer = store-same texts.pointers current pointer ∙ r.place;
        cells = cells;
        digits = r.digits;
        number = r.number;
        count = r.count ∙ sym (uint_digit_count-Row h r);
        text =
            rw (store-same texts.pointers current pointer, sym (length-text cells))
              (bytes-put texts.digits pointer (reverse cells ++ 0 ∷ []));
      });
  pointers_below = λ i p. store-other texts.pointers current pointer i (omega arith);
  pointers_above = λ i p. store-other texts.pointers current pointer i (omega arith);
  digits_below =
      λ b p. put-before texts.digits pointer (reverse cells ++ 0 ∷ []) b (omega (arith, r.place));
  digits_above = λ b p. put-behind texts.digits pointer (reverse cells ++ 0 ∷ []) b (
      omega
        (arith, r.place, length-text cells, r.count, uint_digit_count-Row h r, size_suc current));
}

next-Row :
    (mag size current pointer : ℕ) (cells : List ℕ)
    → mag < 8
    → size ≡ mag + 2
    → current + 2 < 10 ^ (mag + 1)
    → Row mag current pointer cells
    → Row mag (suc current) (pointer + size) (count_buffer_increment cells)
next-Row mag size current pointer cells h e l r =
    let bound : decimal_value cells + 1 < 10 ^ length cells =
      rw (r.count, r.number) (omega (arith, l)) in
    let more = count_buffer_increment-add_one cells (omega (arith, r.count)) r.digits bound in
    record {
      digits = more.0;
      count = more.1 ∙ r.count;
      number = more.2 ∙ omega (arith, r.number);
      first = omega (arith, r.first);
      last = omega (arith, l);
      place = omega (arith, e, r.place, uint_digit_count-Row h r, size_suc current);
    }

pub set_range-Filled :
    (turns mag size : ℕ) (texts : Texts) (pointer : ℕ) (cells : List ℕ) (current : ℕ)
    → mag < 8
    → size ≡ mag + 2
    → 0 < turns
    → current + turns < 10 ^ (mag + 1)
    → Row mag current pointer cells
    → Filled texts (set_range turns size texts pointer cells current) current (current + turns)
unfolding set_range write
set_range-Filled zero mag size texts pointer cells current h e p l r = absurd (omega arith)
set_range-Filled (suc zero) mag size texts pointer cells current h e p l r =
    let end : current + 1 ≡ suc current = omega arith in
    rw end (write-Filled mag current pointer cells texts h r)
set_range-Filled (suc (suc turns)) mag size texts pointer cells current h e p l r =
    let end : current + suc (suc turns) ≡ suc current + suc turns = omega arith in
    rw end (
      upwards (omega arith) (omega arith) (write-Filled mag current pointer cells texts h r) (
        set_range-Filled (suc turns) mag size (write texts current pointer cells) (pointer + size)
          (count_buffer_increment cells) (suc current) h e (omega arith) (omega (arith, l))
          (next-Row mag size current pointer cells h e (omega (arith, l)) r)))
