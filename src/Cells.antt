-- ===== src/Cells.antt =====
-- Text buffers that the program increments in place (generate/counter.h, uuid/uuid_utils.h,
-- time/time_string.h). Those functions are called with a pointer to the last character and walk
-- to lower addresses, so a buffer is the list of its bytes with the last one first: the index of a
-- pointer is its distance from the last byte, `--ptr` adds one and `ptr[-k]` is `k` further on.
pub mod Carry
pub mod Digits
pub mod Switch
use Prim.Native.Nat.{bit_or}
use mysql_seed.Prelude.{
  ℕ, zero, suc, ◌+◌, ◌-◌, ◌*◌, ◌/◌, ◌%◌, ◌^◌, ◌≤◌, ◌<◌, min, ◌≡◌, refl, sym, ap, ◌∙◌, ◌≢◌, ◌↔◌, ◌⊎◌,
  inl, inr, Bool, true, false, not, ◌&&◌, ◌||◌, Option, none, some, List, [], ◌∷◌, ◌++◌, map, arith,
  ltb, leb, ◌==◌, if◌then◌else◌, eq→==, ==→eq, lt→ltb, ltb→lt, le→ltb, Bool-cases, Option-cases,
  length, get_or, set, replicate, length-append, length-replicate, all_below, all_below_sound, sum,
  sum-append, codes,
}

-- SET_STRING_WIDTH(ptr, text, n) of string/string_utils.h, with `ptr` at index `i`: the bytes of the
-- text go to `i`, `i - 1`, ...
abbrev pub set_string : List ℕ → ℕ → List ℕ → List ℕ
set_string cells i [] = cells
set_string cells i (t ∷ ts) = set_string (set cells i t) (i - 1) ts

-- *ptr
abbrev pub at : List ℕ → ℕ → ℕ
at cells i = get_or cells i 0

-- DIGIT_TO_ASCII and ASCII_TO_DIGIT of string/ascii_utils.h; `c & 15` is `c % 16`.
unfoldable pub digit_to_ascii : ℕ → ℕ
digit_to_ascii digit = bit_or digit 48

abbrev pub ascii_to_digit : ℕ → ℕ
ascii_to_digit ascii = ascii % 16

-- What the decimal switches write for each case; `none` is their default.
unfoldable pub next_digit : ℕ → Option ℕ
next_digit c =
    if c == b'0'
    then some b'1'
    else if c == b'1'
    then some b'2'
    else if c == b'2'
    then some b'3'
    else if c == b'3'
    then some b'4'
    else if c == b'4'
    then some b'5'
    else if c == b'5'
    then some b'6'
    else if c == b'6'
    then some b'7'
    else if c == b'7'
    then some b'8'
    else if c == b'8'
    then some b'9'
    else none

-- What the hexadecimal switches write for each case; `none` is their default.
unfoldable pub next_hex : ℕ → Option ℕ
next_hex c =
    if c == b'0'
    then some b'1'
    else if c == b'1'
    then some b'2'
    else if c == b'2'
    then some b'3'
    else if c == b'3'
    then some b'4'
    else if c == b'4'
    then some b'5'
    else if c == b'5'
    then some b'6'
    else if c == b'6'
    then some b'7'
    else if c == b'7'
    then some b'8'
    else if c == b'8'
    then some b'9'
    else if c == b'9'
    then some b'a'
    else if c == b'a'
    then some b'b'
    else if c == b'b'
    then some b'c'
    else if c == b'c'
    then some b'd'
    else if c == b'd'
    then some b'e'
    else if c == b'e'
    then some b'f'
    else none

-- switch (*ptr) { case C: SET_STRING_WIDTH(ptr, "D" tail, n); return; ... default: `rest` } with `ptr`
-- at index `i`: each case writes its digit and the same tail behind it.
abbrev pub switch_text : (ℕ → Option ℕ) → List ℕ → ℕ → List ℕ → List ℕ → List ℕ
switch_text next cells i tail rest = elim (next (at cells i)) [
  | some d ↦ set_string cells i (d ∷ tail)
  | none ↦ rest
]

-- The switches of a row of digits, where the tail is `k` zeros.
abbrev pub switch_on : (ℕ → Option ℕ) → List ℕ → ℕ → ℕ → List ℕ → List ℕ
switch_on next cells i k rest = switch_text next cells i (replicate k b'0') rest
