-- ===== src/Cells/Digits.antt =====
-- The decimal and the hexadecimal digits as systems of numerals.
use native.Mathlib.Nat.{mod-eq_of_lt}
use mysql_seed.Prelude.{
  ℕ, ◌+◌, ◌-◌, ◌%◌, ◌^◌, ◌≤◌, ◌<◌, ◌≡◌, refl, ◌⊎◌, Bool, true, false, none, some, List, arith, ltb,
  ◌==◌, if◌then◌else◌, ==→eq, length, all_below, all_below_sound,
}
use mysql_seed.Cells.{next_digit, next_hex, digit_to_ascii}
use mysql_seed.Cells.Carry.{
  Numerals, All, value, carry, overflows, value-carry, value-lt, carry-All, length-carry,
}

abbrev pub IsDigit : ℕ → Type 0
IsDigit c = (b'0' ≤ c) × (c ≤ b'9')

-- ASCII_TO_DIGIT of utils/utils.h, at a digit
abbrev pub digit_value : ℕ → ℕ
digit_value c = c - b'0'

abbrev pub IsHex : ℕ → Type 0
IsHex c = IsDigit c ⊎ ((b'a' ≤ c) × (c ≤ b'f'))

abbrev pub hex_value : ℕ → ℕ
hex_value c = if ltb c b'a' then c - b'0' else c - b'a' + 10

pub decimal : Numerals 10 digit_value next_digit IsDigit
unfolding next_digit
decimal = record {
  digit_zero = omega arith;
  bounded = λ c h. omega arith;
  step = λ c d h e. ground arith;
  last = λ c h e. ground arith;
}

IsHex-step : (c d : ℕ) → IsHex c → next_hex c ≡ some d → IsHex d × (hex_value d ≡ hex_value c + 1)
unfolding next_hex
IsHex-step c d h e = ground arith

pub hexadecimal : Numerals 16 hex_value next_hex IsHex
unfolding next_hex
hexadecimal = record {
  digit_zero = ground arith;
  bounded = λ c h. ground arith;
  step = IsHex-step;
  last = λ c h e. ground arith;
}

-- the number that a decimal or a hexadecimal buffer shows
abbrev pub decimal_value : List ℕ → ℕ
decimal_value = value 10 digit_value

abbrev pub hexadecimal_value : List ℕ → ℕ
hexadecimal_value = value 16 hex_value

wrap : (v w m : ℕ) (o : Bool) → v < m → w < m → w + (if o then m else 0) ≡ v + 1 → w ≡ (v + 1) % m
wrap v w m true p q e = grind arith
wrap v w m false p q e = grind (arith, mod-eq_of_lt)

-- a row of hexadecimal digits, carried, shows the next number modulo the size of the row
pub hexadecimal-carry :
    (cs : List ℕ)
    → All IsHex cs
    → All IsHex (carry next_hex cs)
      × (length (carry next_hex cs) ≡ length cs)
      × (hexadecimal_value (carry next_hex cs) ≡ (hexadecimal_value cs + 1) % 16 ^ length cs)
hexadecimal-carry cs h =
    let h' = carry-All hexadecimal cs h in
    let l = length-carry hexadecimal cs in
    (
      h',
      l,
      wrap (hexadecimal_value cs) (hexadecimal_value (carry next_hex cs)) (16 ^ length cs)
          (overflows next_hex cs) (value-lt hexadecimal cs h)
          (rw l at (value-lt hexadecimal (carry next_hex cs) h')) (value-carry hexadecimal cs h),
    )

digit_to_ascii-table : all_below 10 (λ d. digit_to_ascii d == b'0' + d) ≡ true
unfolding digit_to_ascii
digit_to_ascii-table = refl

pub digit_to_ascii_lem : (d : ℕ) → d < 10 → digit_to_ascii d ≡ b'0' + d
digit_to_ascii_lem d h =
    ==→eq (digit_to_ascii d) (b'0' + d)
      (all_below_sound 10 (λ k. digit_to_ascii k == b'0' + k) d digit_to_ascii-table h)

pub next_digit-some : (k : ℕ) → k < 9 → next_digit (b'0' + k) ≡ some (b'0' + (k + 1))
unfolding next_digit
next_digit-some k h = ground arith

pub next_digit-none : (k : ℕ) → k ≡ 9 → next_digit (b'0' + k) ≡ none
unfolding next_digit
next_digit-none k h = rw h
