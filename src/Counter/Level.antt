-- ===== src/Counter/Level.antt =====
-- The constants of each magnitude, from one digit to eight.
use mysql_seed.Prelude.{ℕ, zero, suc, ◌+◌, ◌^◌, ◌≤◌, ◌<◌, ◌≡◌, refl, ◌∙◌, arith, length}
use mysql_seed.Cells.Carry.{All}
use mysql_seed.Cells.Digits.{IsDigit, decimal_value}
use mysql_seed.Decimal.{uint_digit_count}
use mysql_seed.Counter.{upto_max, counter_size_upto}
use mysql_seed.Counter.Size.{size_of_texts, counter_size_upto-size_of_texts}
use mysql_seed.Counter.Fill.{off_mag_min, size_mag_0_str_at, mag_min_string}

pub record IsLevel (mag : ℕ) : Type 0 where
  pub first : off_mag_min mag + 1 ≡ 10 ^ mag
  pub size : size_mag_0_str_at mag ≡ size_of_texts (off_mag_min mag)
  pub digits : All IsDigit (mag_min_string mag)
  pub count : length (mag_min_string mag) ≡ mag + 1
  pub shows : decimal_value (mag_min_string mag) ≡ 10 ^ mag

of_constants :
    (mag : ℕ)
    → off_mag_min mag + 1 ≡ 10 ^ mag
    → off_mag_min mag ≤ upto_max
    → size_mag_0_str_at mag ≡ counter_size_upto (off_mag_min mag)
    → All IsDigit (mag_min_string mag)
    → length (mag_min_string mag) ≡ mag + 1
    → decimal_value (mag_min_string mag) ≡ 10 ^ mag
    → IsLevel mag
of_constants mag first small size digits count shows = record {
  first = first;
  size = size ∙ counter_size_upto-size_of_texts (off_mag_min mag) small;
  digits = digits;
  count = count;
  shows = shows;
}

pub level : (mag : ℕ) → mag < 8 → IsLevel mag
unfolding off_mag_min size_mag_0_str_at counter_size_upto
level zero h = of_constants 0 refl (omega arith) refl (omega arith) refl refl
level (suc zero) h = of_constants 1 refl (omega arith) refl (omega arith) refl refl
level (suc (suc zero)) h = of_constants 2 refl (omega arith) refl (omega arith) refl refl
level (suc (suc (suc zero))) h = of_constants 3 refl (omega arith) refl (omega arith) refl refl
level (suc (suc (suc (suc zero)))) h =
    of_constants 4 refl (omega arith) refl (omega arith) refl refl
level (suc (suc (suc (suc (suc zero))))) h =
    of_constants 5 refl (omega arith) refl (omega arith) refl refl
level (suc (suc (suc (suc (suc (suc zero)))))) h =
    of_constants 6 refl (omega arith) refl (omega arith) refl refl
level (suc (suc (suc (suc (suc (suc (suc zero))))))) h =
    of_constants 7 refl (omega arith) refl (omega arith) refl refl
level (suc (suc (suc (suc (suc (suc (suc (suc m)))))))) h = absurd (omega arith)

pub digit_count_at :
    (mag n : ℕ) → mag < 8 → 10 ^ mag ≤ n → n < 10 ^ (mag + 1) → uint_digit_count n ≡ mag + 1
unfolding uint_digit_count
digit_count_at zero n h p q = ground arith
digit_count_at (suc zero) n h p q = ground arith
digit_count_at (suc (suc zero)) n h p q = ground arith
digit_count_at (suc (suc (suc zero))) n h p q = ground arith
digit_count_at (suc (suc (suc (suc zero)))) n h p q = ground arith
digit_count_at (suc (suc (suc (suc (suc zero))))) n h p q = ground arith
digit_count_at (suc (suc (suc (suc (suc (suc zero)))))) n h p q = ground arith
digit_count_at (suc (suc (suc (suc (suc (suc (suc zero))))))) n h p q = ground arith
digit_count_at (suc (suc (suc (suc (suc (suc (suc (suc m)))))))) n h p q = absurd (omega arith)
