-- ===== src/Decimal/Parse/Print.antt =====
-- `put_uint` and `parse_uint`: what is printed is read back.
use mysql_seed.Prelude.{
  ℕ, ◌+◌, ◌-◌, ◌^◌, ◌<◌, ◌≡◌, ◌∙◌, List, [], ◌∷◌, ◌++◌, length, some, arith, ◌≤◌,
}
use mysql_seed.Cells.Carry.{All}
use mysql_seed.Cells.Digits.{IsDigit}
use mysql_seed.Decimal.{uint_digit_count, put_uint}
use mysql_seed.Decimal.Print.{put_uint-value, uint_digit_count_bounds}
use mysql_seed.Decimal.Parse.{parse_uint}
use mysql_seed.Decimal.Parse.Scan.{
  turn, number, turn-All, length-turn, number-turn, all_digits_complete,
}
use mysql_seed.Decimal.Parse.Accept.{within, parse_uint-within}

within-some :
    (s : List ℕ) (n top : ℕ)
    → 0 < length s
    → All IsDigit s
    → number 0 s ≡ n
    → n ≤ top
    → within top s ≡ some n
within-some [] n top p h e l = absurd (omega arith)
within-some (c ∷ s) n top p h e l = rw (all_digits_complete (c ∷ s) h, e) (ground arith)

-- For every 64-bit number `n` and `uint_digit_count n` bytes of a memory, with any bytes around
-- them, `put_uint` replaces these bytes and no others, and `parse_uint` reads `n` back from what it
-- has written.
pub parse_uint-put_uint :
    (behind cells front : List ℕ) (n : ℕ)
    → n < 2 ^ 64
    → length cells ≡ uint_digit_count n
    → (ds : List ℕ) × (put_uint (behind ++ (cells ++ front)) (length behind + length cells) n
        ≡ (behind ++ (ds ++ front), length behind))
      × (parse_uint (turn ds []) ≡ some n)
parse_uint-put_uint behind cells front n h l =
    let (ds, printed, digits, size, shown) = put_uint-value behind cells front n h l in
    let back = turn ds [] in
    (
      ds,
      printed,
      parse_uint-within back
          ∙ within-some back n (2 ^ 64 - 1)
              (omega (arith, length-turn ds [], size, uint_digit_count_bounds n h))
              (turn-All ds [] digits tt) (number-turn ds [] ∙ shown) (omega arith),
    )
