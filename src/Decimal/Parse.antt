-- ===== src/Decimal/Parse.antt =====
-- string/string_utils.h: reading decimal numbers from NUL-terminated strings, for 64-bit uintmax_t
-- (HAVE_INT_STRING_ATTRS). A string is the list of its bytes before the NUL, and the end of the list
-- is the NUL; a pointer into a string is the list from there on.
pub mod Scan
pub mod Accept
pub mod Print
use mysql_seed.Cells.{ascii_to_digit}
use mysql_seed.Prelude.{
  ℕ, zero, suc, ◌+◌, ◌-◌, ◌*◌, ◌%◌, ◌^◌, Bool, true, false, not, ◌&&◌, ◌||◌, Option, none, some,
  List, [], ◌∷◌, get_or, ltb, leb, ◌==◌, if◌then◌else◌, ◌>>=◌, codes,
}

-- the sign of the int that `string_compare` returns
pub data Sign : Type 0 where
  below : Sign
  same : Sign
  above : Sign

-- a byte as a signed char, shifted up by 128
abbrev pub char_rank : ℕ → ℕ
char_rank c = if ltb c 128 then c + 128 else c - 128

-- The bytes are compared as signed chars: a cast to unsigned int and back to int keeps their order.
unfoldable pub string_compare : List ℕ → List ℕ → Sign
string_compare [] [] = same
string_compare [] (d ∷ t) = if ltb (char_rank 0) (char_rank d) then below else above
string_compare (c ∷ s) [] = if ltb (char_rank c) (char_rank 0) then below else above
string_compare (c ∷ s) (d ∷ t) =
    let rest = string_compare s t in
    if ltb (char_rank c) (char_rank d)
    then below
    else if ltb (char_rank d) (char_rank c)
    then above
    else rest

unfoldable pub strings_equal : List ℕ → List ℕ → Bool
strings_equal [] [] = true
strings_equal [] (d ∷ t) = false
strings_equal (c ∷ s) [] = false
strings_equal (c ∷ s) (d ∷ t) = c == d && strings_equal s t

abbrev pub is_above : Sign → Bool
is_above above = true
is_above _ = false

-- the test `(*string > '9') || (*string < '0')`, on bytes
abbrev pub is_no_digit : ℕ → Bool
is_no_digit c = ltb b'9' c || ltb c b'0'

abbrev pub is_end : List ℕ → Bool
is_end [] = true
is_end (_ ∷ _) = false

-- The loop over the digits. `count` is `count_digits`, `back` holds the bytes from `start` up to
-- `string` back to front, and the result is `back` at the end.
unfoldable pub scan_digits :
    (digit_count_max : ℕ) (max_string start : List ℕ) → ℕ → List ℕ → List ℕ → Option (List ℕ)
unfolding string_compare
scan_digits m max_string start count back [] = some back
scan_digits m max_string start count back (c ∷ string) =
    let more = scan_digits m max_string start (count + 1) (c ∷ back) string in
    if is_no_digit c
    then none
    else if count + 1 == m
    then (if is_above (string_compare start max_string)
        then none
        else if not (is_end string)
        then none
        else some (c ∷ back))
    else more

-- of string/string_utils.c; the code reads no entry behind the last
unfoldable pub ten_pow_map : ℕ → ℕ
ten_pow_map i =
    get_or
      (1 ∷ 10 ∷ 100 ∷ 1000 ∷ 10000 ∷ 100000 ∷ 1000000 ∷ 10000000 ∷ 100000000 ∷ 1000000000
        ∷ 10000000000 ∷ 100000000000 ∷ 1000000000000 ∷ 10000000000000 ∷ 100000000000000
        ∷ 1000000000000000 ∷ 10000000000000000 ∷ 100000000000000000 ∷ 1000000000000000000
        ∷ 10000000000000000000 ∷ [])
      i 0

-- the loop back from the last digit but one; `power` is an index into `ten_pow_map`
unfoldable pub sum_digits : ℕ → ℕ → List ℕ → ℕ
unfolding ten_pow_map
sum_digits n power [] = n
sum_digits n power (c ∷ back) =
    sum_digits ((n + ascii_to_digit c * ten_pow_map power) % 2 ^ 64) (power + 1) back

unfoldable pub sum_back : List ℕ → ℕ
unfolding sum_digits
sum_back [] = 0
sum_back (c ∷ back) = sum_digits (ascii_to_digit c) 1 back

-- from the first digit that is no leading zero on
unfoldable pub parse_significant : ℕ → List ℕ → List ℕ → Option ℕ
unfolding scan_digits sum_back
parse_significant m max_string [] = none
parse_significant m max_string (c ∷ string) =
    if is_no_digit c
    then none
    else scan_digits m max_string (c ∷ string) 1 (c ∷ []) string >>= λ back. some (sum_back back)

-- The number that is written to `*n`, or none where NULL is returned: any other result of the
-- function points to the NUL.
unfoldable pub do_parse_uint : ℕ → List ℕ → List ℕ → Option ℕ
unfolding parse_significant
do_parse_uint m max_string [] = none
do_parse_uint m max_string (c ∷ string) =
    let zeros = do_parse_uint m max_string string in
    if c == b'0'
    then (if is_end string then some 0 else zeros)
    else parse_significant m max_string (c ∷ string)

abbrev pub digit_string_uintmax_max : List ℕ
digit_string_uintmax_max = codes "18446744073709551615"

abbrev pub digit_string_intmax_max : List ℕ
digit_string_intmax_max = codes "9223372036854775807"

abbrev pub digit_string_intmax_min : List ℕ
digit_string_intmax_min = codes "9223372036854775808"

unfoldable pub parse_uint : List ℕ → Option ℕ
unfolding do_parse_uint
parse_uint string = do_parse_uint 20 digit_string_uintmax_max string

-- the 64 bits of `-(*n)`; for the least intmax_t, whose negation C leaves undefined, those of a
-- machine that wraps around
unfoldable pub negate : ℕ → ℕ
negate n = (2 ^ 64 - n) % 2 ^ 64

-- The 64 bits of `*n` in two's complement.
unfoldable pub parse_int : List ℕ → Option ℕ
unfolding do_parse_uint negate
parse_int [] = do_parse_uint 19 digit_string_intmax_max []
parse_int (c ∷ string) =
    if c == b'-'
    then (do_parse_uint 19 digit_string_intmax_min string >>= λ n. some (negate n))
    else do_parse_uint 19 digit_string_intmax_max (c ∷ string)
