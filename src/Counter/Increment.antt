-- ===== src/Counter/Increment.antt =====
-- `count_buffer_increment` against incrementing by carrying.
use mysql_seed.Prelude.{
  ℕ, ◌+◌, ◌^◌, ◌≤◌, ◌<◌, ◌≡◌, inl, inr, false, some, List, [], ◌∷◌, arith, length, Bool-cases,
  Option-cases,
}
use mysql_seed.Cells.{next_digit}
use mysql_seed.Cells.Carry.{carry, overflows, All, value-carry, carry-All, length-carry}
use mysql_seed.Cells.Digits.{decimal, IsDigit, decimal_value}
use mysql_seed.Counter.{last_digit, count_buffer_increment}

last_digit-eq : (c d : ℕ) → next_digit c ≡ some d → last_digit c ≡ d
unfolding last_digit next_digit
last_digit-eq c d e = ground arith

-- The unrolled switches carry like the loop that they unroll.
count_buffer_increment-carry :
    (cs : List ℕ)
    → length cs ≤ 8
    → overflows next_digit cs ≡ false
    → count_buffer_increment cs ≡ carry next_digit cs
unfolding count_buffer_increment carry overflows
count_buffer_increment-carry [] l o = ground arith
count_buffer_increment-carry (a ∷ []) l o = ground arith
count_buffer_increment-carry (a ∷ b ∷ []) l o = ground arith
count_buffer_increment-carry (a ∷ b ∷ c ∷ []) l o = ground arith
count_buffer_increment-carry (a ∷ b ∷ c ∷ d ∷ []) l o = ground arith
count_buffer_increment-carry (a ∷ b ∷ c ∷ d ∷ e ∷ []) l o = ground arith
count_buffer_increment-carry (a ∷ b ∷ c ∷ d ∷ e ∷ f ∷ []) l o = ground arith
count_buffer_increment-carry (a ∷ b ∷ c ∷ d ∷ e ∷ f ∷ g ∷ []) l o = ground arith
count_buffer_increment-carry (a ∷ b ∷ c ∷ d ∷ e ∷ f ∷ g ∷ h ∷ []) l o =
    elim (Option-cases (next_digit h)) [
      | inl e ↦ ground arith
      | inr (k, e) ↦ ground (arith, last_digit-eq h k e)
    ]
count_buffer_increment-carry (a ∷ b ∷ c ∷ d ∷ e ∷ f ∷ g ∷ h ∷ i ∷ r) l o = absurd (omega arith)

-- On a buffer of one to eight digits that are not all '9', `count_buffer_increment` leaves as many
-- digits, and the number that they show is one more.
pub count_buffer_increment-add_one :
    (cs : List ℕ)
    → length cs ≤ 8
    → All IsDigit cs
    → decimal_value cs + 1 < 10 ^ length cs
    → All IsDigit (count_buffer_increment cs)
      × (length (count_buffer_increment cs) ≡ length cs)
      × (decimal_value (count_buffer_increment cs) ≡ decimal_value cs + 1)
count_buffer_increment-add_one cs l h b = elim (Bool-cases (overflows next_digit cs)) [
  | inl o ↦ absurd (omega (arith, rw o at (value-carry decimal cs h)))
  | inr o ↦ rw (count_buffer_increment-carry cs l o) (
    carry-All decimal cs h,
    length-carry decimal cs,
    omega (arith, rw o at (value-carry decimal cs h)),
  )
]
