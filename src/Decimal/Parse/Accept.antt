-- ===== src/Decimal/Parse/Accept.antt =====
-- Which strings the parsers of numbers accept, and the number they give.
use mysql_seed.Prelude.{
  ℕ, ◌+◌, ◌-◌, ◌*◌, ◌%◌, ◌^◌, ◌≤◌, ◌<◌, ◌≡◌, refl, sym, ap, ◌∙◌, Bool, true, false, not, ◌&&◌, ◌||◌,
  Option, none, some, List, [], ◌∷◌, arith, ltb, leb, leb→le, ◌==◌, ==→eq, if◌then◌else◌, length,
  inl, inr, Bool-cases, ◌>>=◌,
}
use native.Mathlib.Nat.{pow-le-pow_right}
use native.Mathlib.Decide.{dec_lt}
use mysql_seed.Cells.Carry.{All}
use mysql_seed.Cells.Digits.{IsDigit, decimal_value}
use mysql_seed.Decimal.Parse.{
  string_compare, is_above, is_no_digit, is_end, sum_back, parse_significant, do_parse_uint,
  parse_uint, parse_int, negate, digit_string_uintmax_max, digit_string_intmax_max,
  digit_string_intmax_min,
}
use mysql_seed.Decimal.Parse.Scan.{
  turn, number, all_digits, all_digits_sound, scan_digits_lem, number-lt, number-head,
  string_compare-number, sum_back-value, value-turn, length-turn, turn-All,
}

-- A greatest number as the parsers are told it: a string of the greatest count of digits.
record Limit (m : ℕ) (max_string : List ℕ) (top : ℕ) : Type 0 where
  several : (1 < m) × (m ≤ 20)
  digits : All IsDigit max_string
  full : length max_string ≡ m
  spelled : number 0 max_string ≡ top
  fits : top < 2 ^ 64
  -- the string has no leading zero
  tight : 10 ^ (m - 1) ≤ top

-- the specification: digits that spell no more than `top`
abbrev pub within : ℕ → List ℕ → Option ℕ
within top s =
    if not (is_end s) && all_digits s && leb (number 0 s) top then some (number 0 s) else none

at_least : (d p x : ℕ) → 0 < d → p ≤ d * p + x
at_least d p x h = grind arith

first-big : (c : ℕ) (s : List ℕ) → b'0' < c → 10 ^ length s ≤ number 0 (c ∷ s)
first-big c s h =
    rw (number-head c s) (at_least (c - b'0') (10 ^ length s) (number 0 s) (omega arith))

sum-turn :
    (c : ℕ) (s : List ℕ)
    → All IsDigit (c ∷ s)
    → length (c ∷ s) ≤ 20
    → number 0 (c ∷ s) < 2 ^ 64
    → sum_back (turn s (c ∷ [])) ≡ number 0 (c ∷ s)
sum-turn c s h l f =
    let e : decimal_value (turn s (c ∷ [])) ≡ number 0 (c ∷ s) = value-turn (c ∷ s) [] in
    sum_back-value (turn s (c ∷ [])) (turn-All (c ∷ s) [] h tt)
      (omega (arith, length-turn s (c ∷ []))) (rw e f)
    ∙ e

test_cases :
    (l m n top : ℕ) (o : Bool)
    → (l < m → n ≤ top)
    → (m < l → top < n)
    → (l ≡ m → o ≡ ltb top n)
    → ltb l m || (l == m && not o) ≡ leb n top
test_cases l m n top o f g h = ground arith

leading_zero : (c : ℕ) (s : List ℕ) (top : ℕ) → within top (c ∷ s) ≡ within top (b'0' ∷ c ∷ s)
unfolding all_digits
leading_zero c s top = refl

zero_alone : (top : ℕ) → some 0 ≡ within top (b'0' ∷ [])
unfolding all_digits
zero_alone top = ground arith

digit_of : (c : ℕ) → is_no_digit c ≡ false → IsDigit c
digit_of c e = ground arith

above_zero : (c : ℕ) → (c == b'0') ≡ false → IsDigit c → b'0' < c
above_zero c e h = ground arith

same_choice :
    (t b : Bool) (back : List ℕ) (n : ℕ)
    → t ≡ b
    → (b ≡ true → sum_back back ≡ n)
    → ((if t then some back else none) >>= λ back. some (sum_back back))
      ≡ (if b then some n else none)
same_choice t true back n e f = rw e (ap some (f refl))
same_choice t false back n e f = rw e refl

module _ {m top : ℕ} {max_string : List ℕ} (limit : Limit m max_string top) where
  top-lt : top < 10 ^ m
  top-lt = rw (limit.spelled, limit.full) at (number-lt max_string limit.digits)

  too_long : (c : ℕ) (s : List ℕ) → b'0' < c → m ≤ length s → top < number 0 (c ∷ s)
  too_long c s h l =
      omega (arith, first-big c s h, pow-le-pow_right {n = 10} (omega arith) l, top-lt)

  -- the test of the scan is the comparison with the greatest number
  scan_test :
      (c : ℕ) (s : List ℕ)
      → b'0' < c
      → All IsDigit (c ∷ s)
      → ltb (1 + length s) m
          || (1 + length s == m && not (is_above (string_compare (c ∷ s) max_string)))
        ≡ leb (number 0 (c ∷ s)) top
  scan_test c s h hs =
      test_cases (1 + length s) m (number 0 (c ∷ s)) top
        (is_above (string_compare (c ∷ s) max_string))
        (λ l.
          let l' : 1 + length s ≤ m - 1 = omega arith in
          let l'' : length (c ∷ s) ≡ 1 + length s = omega arith in
          omega (
            arith,
            rw l'' at (number-lt (c ∷ s) hs),
            pow-le-pow_right {n = 10} (omega arith) l',
            limit.tight,
          ))
        (λ l. too_long c s h (omega arith))
        (λ e.
          rw (sym limit.spelled) (
            string_compare-number (c ∷ s) max_string (omega (arith, e, limit.full)) hs
              limit.digits))

  not_long : (c : ℕ) (s : List ℕ) → b'0' < c → number 0 (c ∷ s) ≤ top → length s < m
  not_long c s h l = elim (dec_lt (length s) m) [
    | yes k ↦ k
    | no k ↦ absurd (omega (arith, too_long c s h (omega arith)))
  ]

  parse_significant-within :
      (c : ℕ) (s : List ℕ)
      → (c == b'0') ≡ false
      → parse_significant m max_string (c ∷ s) ≡ within top (c ∷ s)
  unfolding parse_significant all_digits
  parse_significant-within c s h = elim (Bool-cases (is_no_digit c)) [
    | inl e ↦ rw (e, all_digits) refl
    | inr e ↦
        rw (e, all_digits, scan_digits_lem m max_string (c ∷ s) 1 (c ∷ []) s (limit.several.0))
          (elim (Bool-cases (all_digits s)) [
            | inl d ↦
                let digits : All IsDigit (c ∷ s) = (digit_of c e, all_digits_sound s d) in
                let nonzero = above_zero c h digits.0 in
                rw d (
                  same_choice _ (leb (number 0 (c ∷ s)) top) (turn s (c ∷ [])) (number 0 (c ∷ s))
                    (scan_test c s nonzero digits)
                    (λ l.
                      let small : number 0 (c ∷ s) ≤ top = leb→le _ top l in
                      sum-turn c s digits
                        (omega (arith, not_long c s nonzero small, limit.several.1))
                        (omega (arith, limit.fits))))
            | inr d ↦ rw d refl
          ])
  ]

  do_parse_uint-within : (s : List ℕ) → do_parse_uint m max_string s ≡ within top s
  unfolding do_parse_uint
  do_parse_uint-within [] = refl
  do_parse_uint-within (c ∷ []) = elim (Bool-cases (c == b'0')) [
    | inl e ↦ rw (==→eq c b'0' e) (zero_alone top)
    | inr e ↦ rw e (parse_significant-within c [] e)
  ]
  do_parse_uint-within (c ∷ d ∷ s) = elim (Bool-cases (c == b'0')) [
    | inl e ↦ rw (==→eq c b'0' e) (do_parse_uint-within (d ∷ s) ∙ leading_zero d s top)
    | inr e ↦ rw e (parse_significant-within c (d ∷ s) e)
  ]

uintmax-Limit : Limit 20 digit_string_uintmax_max (2 ^ 64 - 1)
uintmax-Limit = record {
  several = omega arith;
  digits = omega arith;
  full = refl;
  spelled = refl;
  fits = omega arith;
  tight = omega arith;
}

intmax-Limit : Limit 19 digit_string_intmax_max (2 ^ 63 - 1)
intmax-Limit = record {
  several = omega arith;
  digits = omega arith;
  full = refl;
  spelled = refl;
  fits = omega arith;
  tight = omega arith;
}

intmin-Limit : Limit 19 digit_string_intmax_min (2 ^ 63)
intmin-Limit = record {
  several = omega arith;
  digits = omega arith;
  full = refl;
  spelled = refl;
  fits = omega arith;
  tight = omega arith;
}

-- For every string, `parse_uint` gives the number that its digits spell in base 10 where it is not
-- empty, has digits only and spells less than 2^64, and refuses it otherwise; leading zeros do not
-- matter.
pub parse_uint-within : (s : List ℕ) → parse_uint s ≡ within (2 ^ 64 - 1) s
unfolding parse_uint
parse_uint-within = do_parse_uint-within uintmax-Limit

-- the specification of `parse_int`: an optional sign, and the number in two's complement
abbrev pub signed_within : List ℕ → Option ℕ
signed_within [] = none
signed_within (c ∷ s) =
    if c == b'-'
    then (within (2 ^ 63) s >>= λ n. some ((2 ^ 64 - n) % 2 ^ 64))
    else within (2 ^ 63 - 1) (c ∷ s)

-- For every string, `parse_int` gives the number of 64 bits in two's complement that its digits
-- spell, behind at most one minus sign, where there are digits only and at least one, and they
-- spell at most 2^63 with the sign and 2^63 - 1 without it, and refuses it otherwise.
pub parse_int-signed_within : (s : List ℕ) → parse_int s ≡ signed_within s
unfolding parse_int negate
parse_int-signed_within [] = do_parse_uint-within intmax-Limit []
parse_int-signed_within (c ∷ s) =
    rw (do_parse_uint-within intmin-Limit s, do_parse_uint-within intmax-Limit (c ∷ s)) refl
