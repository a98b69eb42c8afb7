-- ===== src/Decimal.antt =====
-- string/string_utils.h: printing unsigned numbers in decimal, for 64-bit uintmax_t
-- (HAVE_INT_STRING_ATTRS, DIGIT_COUNT_UINTMAX_MAX = 20).
pub mod Print
pub mod Parse
use mysql_seed.Cells.{digit_to_ascii}
use mysql_seed.Prelude.{
  ℕ, zero, suc, ◌+◌, ◌-◌, ◌*◌, ◌/◌, ◌%◌, Option, List, [], ◌∷◌, ◌==◌, ltb, if◌then◌else◌, replicate,
  set,
}

unfoldable pub uint_digit_count : ℕ → ℕ
uint_digit_count n =
    if ltb n 10000000000
    then (if ltb n 100000
        then (if ltb n 1000
            then (if ltb n 100 then (if ltb n 10 then 1 else 2) else 3)
            else if ltb n 10000
            then 4
            else 5)
        else if ltb n 100000000
        then (if ltb n 10000000 then (if ltb n 1000000 then 6 else 7) else 8)
        else if ltb n 1000000000
        then 9
        else 10)
    else if ltb n 1000000000000000
    then (if ltb n 1000000000000
        then (if ltb n 100000000000 then 11 else 12)
        else if ltb n 10000000000000
        then 13
        else if ltb n 100000000000000
        then 14
        else 15)
    else if ltb n 100000000000000000
    then (if ltb n 10000000000000000 then 16 else 17)
    else if ltb n 1000000000000000000
    then 18
    else if ltb n 10000000000000000000
    then 19
    else 20

-- The loop on fuel; `cells` is the buffer up to and with `*buffer`, back to front as in `Cells`, and
-- `i` the index of `buffer`. When the fuel is out the buffer is left as it is.
pub do_put_uint : ℕ → List ℕ → ℕ → ℕ → List ℕ
do_put_uint zero cells i n = cells
do_put_uint (suc fuel) cells i n =
    let cells' = set cells i (digit_to_ascii (n % 10)) in
    let rest = do_put_uint fuel cells' (i + 1) (n / 10) in if n / 10 == 0 then cells' else rest

-- Fuel: a 64-bit number has at most 20 digits.
abbrev pub digit_count_uintmax_max : ℕ
digit_count_uintmax_max = 20

-- `put_uint(buffer, n)`: `cells` is the memory, back to front, and a pointer is the number of the bytes
-- from where it points to on, so that a pointer one lower is one more, and `*(until - 1)` is the cell
-- with the index `until`. The result is the memory and `until`.
pub put_uint : List ℕ → ℕ → ℕ → List ℕ × ℕ
put_uint cells buffer n =
    let until = buffer - uint_digit_count n in
    (do_put_uint digit_count_uintmax_max cells until n, until)
