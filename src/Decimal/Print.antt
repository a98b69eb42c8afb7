-- ===== src/Decimal/Print.antt =====
-- `put_uint` prints a number: how many digits, and which.
use mysql_seed.Prelude.{
  ℕ, zero, suc, ◌+◌, ◌-◌, ◌*◌, ◌/◌, ◌%◌, ◌^◌, ◌≤◌, ◌<◌, ◌≡◌, refl, sym, ap, ◌∙◌, ◌⊎◌, inl, inr,
  List, [], ◌∷◌, ◌++◌, arith, ◌==◌, if◌then◌else◌, ==→eq, Bool-cases, length, set, length-append,
}
use Prim.Native.Nat.pow
use native.Mathlib.Nat.{pow-le-pow_right}
use mathlib.Core.List.{append_assoc}
use native.Mathlib.Decide.{ℕ_discrete, dec_lt}
use mysql_seed.Cells.Carry.{All, value-lt}
use mysql_seed.Cells.Digits.{IsDigit, decimal_value, decimal, digit_to_ascii_lem}
use mysql_seed.Decimal.{uint_digit_count, do_put_uint, put_uint}

-- For every 64-bit number, `uint_digit_count` is the length of its shortest decimal form: the
-- number needs no more digits, and no fewer unless it is 0, which has one.
pub uint_digit_count_bounds :
    (n : ℕ)
    → n < 2 ^ 64
    → (n < 10 ^ uint_digit_count n)
      × (0 < uint_digit_count n)
      × ((10 ^ (uint_digit_count n - 1) ≤ n) ⊎ (uint_digit_count n ≡ 1))
unfolding uint_digit_count
uint_digit_count_bounds n h = ground arith

-- the digits of a number, its least first
digits : ℕ → ℕ → List ℕ
digits zero n = []
digits (suc fuel) n =
    let rest = digits fuel (n / 10) in (b'0' + n % 10) ∷ (if n / 10 == 0 then [] else rest)

digits-IsDigit : (fuel n : ℕ) → All IsDigit (digits fuel n)
unfolding digits
digits-IsDigit zero n = tt
digits-IsDigit (suc fuel) n = elim (Bool-cases (n / 10 == 0)) [
  | inl e ↦ rw e (omega arith)
  | inr e ↦ rw e ((omega arith, omega arith), digits-IsDigit fuel (n / 10))
]

value-digits : (fuel n : ℕ) → n < 10 ^ fuel → decimal_value (digits fuel n) ≡ n
unfolding digits
value-digits zero n h = omega (arith, pow.zero 10)
value-digits (suc fuel) n h =
    let less : n / 10 < 10 ^ fuel = omega (arith, pow.suc 10 fuel) in
    elim (Bool-cases (n / 10 == 0)) [
      | inl e ↦ rw e (omega (arith, ==→eq (n / 10) 0 e))
      | inr e ↦ rw e (omega (arith, value-digits fuel (n / 10) less))
    ]

-- no leading zero
digits-tight : (fuel n : ℕ) → 0 < n → n < 10 ^ fuel → 10 ^ length (digits fuel n) ≤ 10 * n
unfolding digits
digits-tight zero n p h = absurd (omega (arith, pow.zero 10))
digits-tight (suc fuel) n p h =
    let less : n / 10 < 10 ^ fuel = omega (arith, pow.suc 10 fuel) in
    elim (Bool-cases (n / 10 == 0)) [
      | inl e ↦ rw e (omega arith)
      | inr e ↦ rw (e, pow.suc) (ground (arith, digits-tight fuel (n / 10)))
    ]

-- the powers of ten between which a number lies determine each other
same_power : (n k d : ℕ) → n < 10 ^ k → 10 ^ k ≤ 10 * n → n < 10 ^ d → 10 ^ d ≤ 10 * n → k ≡ d
same_power n k d a b a' b' = elim (ℕ_discrete k d) [
  | yes e ↦ e
  | no ne ↦ elim (dec_lt k d) [
    | yes h ↦ absurd (omega (arith, pow-le-pow_right {n = 10} (omega arith) h, pow.suc 10 k))
    | no h ↦
        let h' : suc d ≤ k = omega arith in
        absurd (omega (arith, pow-le-pow_right {n = 10} (omega arith) h', pow.suc 10 d))
  ]
]

count_tight : (n : ℕ) → 0 < n → n < 2 ^ 64 → 10 ^ uint_digit_count n ≤ 10 * n
unfolding uint_digit_count
count_tight n p h = ground arith

length-digits : (n : ℕ) → 0 < n → n < 2 ^ 64 → length (digits 20 n) ≡ uint_digit_count n
length-digits n p h =
    same_power n (length (digits 20 n)) (uint_digit_count n) below
      (digits-tight 20 n p (omega arith)) (uint_digit_count_bounds n h).0 (count_tight n p h)
  where
    below : n < 10 ^ length (digits 20 n)
    below =
        rw (value-digits 20 n (omega arith)) at
          (value-lt decimal (digits 20 n) (digits-IsDigit 20 n))

set-append : (d t : List ℕ) (x v : ℕ) → set (d ++ x ∷ t) (length d) v ≡ d ++ v ∷ t
set-append [] t x v = refl
set-append (y ∷ d) t x v = ap (λ r. y ∷ r) (set-append d t x v)

no_bytes : (t front : List ℕ) → length t ≡ 0 → t ++ front ≡ front
no_bytes [] front h = refl
no_bytes (x ∷ t) front h = absurd (omega arith)

-- into the bytes `t` between `d` and `front`
do_put_uint-digits :
    (fuel n : ℕ) (d t front : List ℕ) (i : ℕ)
    → i ≡ length d
    → length t ≡ length (digits fuel n)
    → do_put_uint fuel (d ++ (t ++ front)) i n ≡ d ++ (digits fuel n ++ front)
unfolding do_put_uint digits
do_put_uint-digits zero n d [] front i e l = refl
do_put_uint-digits zero n d (x ∷ t) front i e l = absurd (omega arith)
do_put_uint-digits (suc fuel) n d [] front i e l = absurd (omega arith)
do_put_uint-digits (suc fuel) n d (x ∷ t) front i e l = elim (Bool-cases (n / 10 == 0)) [
  | inl z ↦
      let none_left : length t ≡ 0 = omega (arith, rw z at l) in
      rw (z, e, digit_to_ascii_lem (n % 10) (omega arith), set-append)
        (ap (λ r. d ++ (b'0' + n % 10) ∷ r) (no_bytes t front none_left))
  | inr z ↦
      rw (z, e, digit_to_ascii_lem (n % 10) (omega arith), set-append)
        (simp append_assoc at (
          do_put_uint-digits fuel (n / 10) (d ++ (b'0' + n % 10) ∷ []) t front (length d + 1)
            (omega (arith, length-append d ((b'0' + n % 10) ∷ []))) (omega (arith, rw z at l))))
]

length-digits_zero : length (digits 20 0) ≡ uint_digit_count 0
unfolding digits uint_digit_count
length-digits_zero = refl

length-digits_all : (n : ℕ) → n < 2 ^ 64 → length (digits 20 n) ≡ uint_digit_count n
length-digits_all zero h = length-digits_zero
length-digits_all (suc n) h = length-digits (suc n) (omega arith) h

-- For every 64-bit number `n` and every memory, from whose byte at the buffer on there are
-- `uint_digit_count n` bytes `cells` with any bytes around them, `put_uint` replaces these bytes by
-- the decimal digits of `n`, as many as there are, leaves all bytes behind and in front of them as
-- they were, and returns the pointer behind the last digit.
pub put_uint-value :
    (behind cells front : List ℕ) (n : ℕ)
    → n < 2 ^ 64
    → length cells ≡ uint_digit_count n
    → (ds : List ℕ) × (put_uint (behind ++ (cells ++ front)) (length behind + length cells) n
        ≡ (behind ++ (ds ++ front), length behind))
      × All IsDigit ds
      × (length ds ≡ uint_digit_count n)
      × (decimal_value ds ≡ n)
unfolding put_uint
put_uint-value behind cells front n h l =
    let same = l ∙ sym (length-digits_all n h) in
    let until : length behind + length cells - uint_digit_count n ≡ length behind =
      omega (arith, l) in
    (
      digits 20 n,
      rw (until, do_put_uint-digits 20 n behind cells front (length behind) refl same) refl,
      digits-IsDigit 20 n,
      length-digits_all n h,
      value-digits 20 n (omega arith),
    )
