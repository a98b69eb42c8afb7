-- ===== src/Decimal/Parse/Scan.antt =====
-- The loops of `do_parse_uint`: the one over the digits, and the sum of their values.
use Prim.Native.Nat.pow
use mysql_seed.Prelude.{
  ℕ, suc, ◌+◌, ◌-◌, ◌*◌, ◌^◌, ◌≤◌, ◌<◌, ◌≡◌, refl, ap, ◌∙◌, Bool, true, not, ◌&&◌, ◌||◌, none, some,
  List, [], ◌∷◌, arith, ltb, ◌==◌, ==→eq, if◌then◌else◌, length, all_below, all_below_sound,
}
use native.Mathlib.Nat.{mod-eq_of_lt}
use mysql_seed.Cells.{ascii_to_digit}
use mysql_seed.Cells.Carry.{All}
use mysql_seed.Cells.Digits.{IsDigit, decimal_value}
use mysql_seed.Decimal.Parse.{
  Sign, below, above, char_rank, string_compare, is_above, is_no_digit, scan_digits, ten_pow_map,
  sum_digits, sum_back,
}

-- a list turned over onto another
abbrev pub turn {ℓ} : {A : Type ℓ} → List A → List A → List A
turn [] acc = acc
turn (x ∷ xs) acc = turn xs (x ∷ acc)

-- the number that digits spell behind `n`, with no bound
abbrev pub number : ℕ → List ℕ → ℕ
number n [] = n
number n (c ∷ s) = number (n * 10 + (c - b'0')) s

unfoldable pub all_digits : List ℕ → Bool
all_digits [] = true
all_digits (c ∷ s) = not (is_no_digit c) && all_digits s

pub all_digits_sound : (s : List ℕ) → all_digits s ≡ true → All IsDigit s
unfolding all_digits
all_digits_sound [] h = tt
all_digits_sound (c ∷ s) h = ground (arith, all_digits_sound s)

pub all_digits_complete : (s : List ℕ) → All IsDigit s → all_digits s ≡ true
unfolding all_digits
all_digits_complete [] h = refl
all_digits_complete (c ∷ s) h = ground (arith, all_digits_complete s)

-- A scan that has not reached the greatest count yet goes to the end of a string of digits, unless
-- it gets too long or too large.
pub scan_digits_lem :
    (m : ℕ) (max_string start : List ℕ) (count : ℕ) (back s : List ℕ)
    → count < m
    → scan_digits m max_string start count back s ≡ (
        if all_digits s
          && (ltb (count + length s) m
              || (count + length s == m && not (is_above (string_compare start max_string))))
        then some (turn s back)
        else none)
unfolding scan_digits all_digits
scan_digits_lem m max_string start count back [] h = ground arith
scan_digits_lem m max_string start count back (c ∷ []) h = ground arith
scan_digits_lem m max_string start count back (c ∷ d ∷ s) h =
    ground (arith, scan_digits_lem m max_string start (count + 1) (c ∷ back) (d ∷ s))

behind : (n d p x : ℕ) → (n * 10 + d) * p + x ≡ n * (p * 10) + ((0 + d) * p + x)
behind n d p x = grind arith

number-behind : (n : ℕ) (s : List ℕ) → number n s ≡ n * 10 ^ length s + number 0 s
number-behind n [] = omega (arith, pow.zero 10)
number-behind n (c ∷ s) =
    rw (number-behind (n * 10 + (c - b'0')) s, number-behind (0 + (c - b'0')) s, pow.suc)
      (behind n (c - b'0') (10 ^ length s) (number 0 s))

pub number-head : (c : ℕ) (s : List ℕ) → number 0 (c ∷ s) ≡ (c - b'0') * 10 ^ length s + number 0 s
number-head c s =
    rw (number-behind (0 + (c - b'0')) s)
      (omega (arith, ap (λ (d : ℕ). d * 10 ^ length s) (zero_plus (c - b'0'))))
  where
    zero_plus : (d : ℕ) → 0 + d ≡ d
    zero_plus d = omega arith

below_power : (d p x : ℕ) → d < 10 → x < p → d * p + x < p * 10
below_power d p x h k = grind arith

pub number-lt : (s : List ℕ) → All IsDigit s → number 0 s < 10 ^ length s
number-lt [] h = rw (pow.zero) (omega arith)
number-lt (c ∷ s) (h, hs) =
    rw (number-head c s, pow.suc)
      (below_power (c - b'0') (10 ^ length s) (number 0 s) (omega arith) (number-lt s hs))

less_by_head : (c d p x y : ℕ) → x < p → c < d → c * p + x < d * p + y
less_by_head c d p x y h k = grind arith

char_rank-digit : (c : ℕ) → IsDigit c → char_rank c ≡ c + 128
char_rank-digit c h = ground arith

compare_heads :
    (a b c d p x y : ℕ) (o : Sign)
    → a + 48 ≡ c
    → b + 48 ≡ d
    → x < p
    → y < p
    → is_above o ≡ ltb y x
    → is_above
        (if ltb (c + 128) (d + 128) then below else if ltb (d + 128) (c + 128) then above else o)
      ≡ ltb (b * p + y) (a * p + x)
compare_heads a b c d p x y o h k f g e =
    ground (arith, less_by_head a b p x y f, less_by_head b a p y x g)

-- strings of equally many digits are compared as the numbers they spell
pub string_compare-number :
    (s t : List ℕ)
    → length s ≡ length t
    → All IsDigit s
    → All IsDigit t
    → is_above (string_compare s t) ≡ ltb (number 0 t) (number 0 s)
unfolding string_compare
string_compare-number [] [] l h k = refl
string_compare-number [] (d ∷ t) l h k = absurd (omega arith)
string_compare-number (c ∷ s) [] l h k = absurd (omega arith)
string_compare-number (c ∷ s) (d ∷ t) l (h, hs) (k, kt) =
    let rest = string_compare-number s t (omega arith) hs kt in
    let l' : length s ≡ length t = omega arith in
    rw (char_rank-digit c h, char_rank-digit d k, number-head c s, number-head d t, l')
      (compare_heads (c - b'0') (d - b'0') c d (10 ^ length t) (number 0 s) (number 0 t)
        (string_compare s t) (omega arith) (omega arith) (rw l' at (number-lt s hs))
        (number-lt t kt) rest)

ten_pow_map-table : all_below 20 (λ i. ten_pow_map i == 10 ^ i) ≡ true
unfolding ten_pow_map
ten_pow_map-table = refl

ten_pow_map_lem : (i : ℕ) → i < 20 → ten_pow_map i ≡ 10 ^ i
ten_pow_map_lem i h =
    ==→eq (ten_pow_map i) (10 ^ i)
      (all_below_sound 20 (λ k. ten_pow_map k == 10 ^ k) i ten_pow_map-table h)

ascii_to_digit_lem : (c : ℕ) → IsDigit c → ascii_to_digit c ≡ c - b'0'
ascii_to_digit_lem c h = omega arith

scaled : (n p d v : ℕ) → n + d * p + p * 10 * v ≡ n + p * (d + 10 * v)
scaled n p d v = grind arith

below_total : (n p d v m : ℕ) → n + p * (d + 10 * v) < m → n + d * p < m
below_total n p d v m h = omega (arith, scaled n p d v)

total_step : (n i d v : ℕ) → n + d * 10 ^ i + 10 ^ (i + 1) * v ≡ n + 10 ^ i * (d + 10 * v)
total_step n i d v =
    let next : i + 1 ≡ suc i = omega arith in rw (next, pow.suc 10 i) (scaled n (10 ^ i) d v)

-- no sum wraps around where the number fits 64 bits
sum_digits-value :
    (n i : ℕ) (back : List ℕ)
    → All IsDigit back
    → i + length back ≤ 20
    → n + 10 ^ i * decimal_value back < 2 ^ 64
    → sum_digits n i back ≡ n + 10 ^ i * decimal_value back
unfolding sum_digits
sum_digits-value n i [] h l f = omega arith
sum_digits-value n i (c ∷ back) (h, hb) l f =
    let d = c - b'0' in
    let small = below_total n (10 ^ i) d (decimal_value back) (2 ^ 64) f in
    let total = total_step n i d (decimal_value back) in
    rw (ascii_to_digit_lem c h, ten_pow_map_lem i (omega arith), mod-eq_of_lt small)
      (sum_digits-value (n + d * 10 ^ i) (i + 1) back hb (omega arith) (omega (arith, total))
        ∙ total)

pub sum_back-value :
    (back : List ℕ)
    → All IsDigit back
    → length back ≤ 20
    → decimal_value back < 2 ^ 64
    → sum_back back ≡ decimal_value back
unfolding sum_back
sum_back-value [] h l f = refl
sum_back-value (c ∷ back) (h, hb) l f =
    rw (ascii_to_digit_lem c h)
      (sum_digits-value (c - b'0') 1 back hb (omega arith) (omega arith) ∙ omega arith)

pub number-turn : (ds rest : List ℕ) → number 0 (turn ds rest) ≡ number (decimal_value ds) rest
number-turn [] rest = refl
number-turn (d ∷ ds) rest = rw (number-turn ds (d ∷ rest)) (ap (λ v. number v rest) (omega arith))

pub value-turn : (s acc : List ℕ) → decimal_value (turn s acc) ≡ number (decimal_value acc) s
value-turn [] acc = refl
value-turn (c ∷ s) acc = rw (value-turn s (c ∷ acc)) (ap (λ v. number v s) (omega arith))

pub length-turn {ℓ} : {A : Type ℓ} (s acc : List A) → length (turn s acc) ≡ length s + length acc
length-turn [] acc = omega arith
length-turn (x ∷ s) acc = omega (arith, length-turn s (x ∷ acc))

pub turn-All : (s acc : List ℕ) → All IsDigit s → All IsDigit acc → All IsDigit (turn s acc)
turn-All [] acc h k = k
turn-All (x ∷ s) acc (h, hs) k = turn-All s (x ∷ acc) hs (h, k)
