-- ===== src/Counter/Size.antt =====
-- How much memory a counter takes.
use mysql_seed.Prelude.{ℕ, zero, suc, ◌+◌, ◌≤◌, ◌<◌, ◌≡◌, refl, arith}
use mysql_seed.Decimal.{uint_digit_count}
use mysql_seed.Counter.{upto_max, counter_size_internals, counter_size_upto, counter_size_mag_upto}

-- the bytes of the texts "1", "2", ..., each with its NUL
unfoldable pub size_of_texts : ℕ → ℕ
size_of_texts zero = 0
size_of_texts (suc n) = size_of_texts n + (uint_digit_count (suc n) + 1)

-- one more number takes the bytes of its text
size_step :
    (n : ℕ)
    → n < upto_max
    → counter_size_upto (suc n) ≡ counter_size_upto n + counter_size_mag_upto (suc n)
unfolding counter_size_upto counter_size_mag_upto
size_step n h = ground arith

-- For every counter that the program allows, the size that `counter_size_internals` stores is that
-- of `counter_size_upto`, `mag_upto` is the index of the last digit of "upto", and
-- `counter_size_mag_upto` is the size of that text with its NUL.
pub counter_size_internals-agree :
    (n : ℕ)
    → 0 < n
    → n ≤ upto_max
    → ((counter_size_internals n).size_digits ≡ counter_size_upto n)
      × ((counter_size_internals n).mag_upto + 1 ≡ uint_digit_count n)
      × (counter_size_mag_upto n ≡ uint_digit_count n + 1)
unfolding counter_size_internals counter_size_upto counter_size_mag_upto uint_digit_count
counter_size_internals-agree n p h = ground arith

-- `counter_size_upto upto` is the size of the decimal texts of 1 up to `upto`, as the digit counts
-- of `put_uint` add up, for every counter that the program allows.
pub counter_size_upto-size_of_texts : (n : ℕ) → n ≤ upto_max → counter_size_upto n ≡ size_of_texts n
unfolding counter_size_upto size_of_texts
counter_size_upto-size_of_texts zero h = refl
counter_size_upto-size_of_texts (suc n) h = omega (
  arith,
  size_step n (omega arith),
  (counter_size_internals-agree (suc n) (omega arith) h).2,
  counter_size_upto-size_of_texts n (omega arith),
)
