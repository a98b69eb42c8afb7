-- ===== src/Generate/Name.antt =====
-- mysql_seed_generate.h: names and texts in UTF-8.
pub mod Accept
use mysql_seed.Generate.Flag.{Arg}
use mysql_seed.Utf8.{utf8_width, skip}
use mysql_seed.Prelude.{ℕ, zero, suc, ◌+◌, List, [], ◌∷◌, ◌==◌, if◌then◌else◌}
use mysql_seed.Decimal.Parse.{is_end}

-- What the functions return and report: the length of the text, or why it is refused.
pub data NameResult : Type 0 where
  named : (length : ℕ) → NameResult
  name_empty : NameResult
  name_invalid : NameResult
  name_long : NameResult

-- The loop of the names on `rem_code_points`, which is not 0 at its start; `length` is the distance
-- of `octets` from the first byte.
unfoldable pub name_loop : (rem_code_points length : ℕ) → List ℕ → NameResult
name_loop zero length octets = name_long
name_loop (suc rem_code_points) length octets =
    let width = utf8_width octets in
    let octets' = skip width octets in
    let rest = name_loop rem_code_points (length + width) octets' in
    if width == 0
    then name_invalid
    else if is_end octets'
    then named (length + width)
    else if rem_code_points == 0
    then name_long
    else rest

abbrev pub name_length_max : ℕ
name_length_max = 63

unfoldable pub parse_db_name : Arg → NameResult
unfolding name_loop
parse_db_name arg = if is_end arg then name_empty else name_loop name_length_max 0 arg

unfoldable pub parse_tbl_name : Arg → NameResult
unfolding name_loop
parse_tbl_name arg = if is_end arg then name_empty else name_loop name_length_max 0 arg

unfoldable pub parse_col_name : Arg → NameResult
unfolding name_loop
parse_col_name arg = if is_end arg then name_empty else name_loop name_length_max 0 arg

-- The loop of the texts, which looks for the NUL before each code point, and counts down behind it.
unfoldable pub text_loop : (rem_code_points length : ℕ) → List ℕ → NameResult
text_loop zero length octets = name_long
text_loop (suc rem_code_points) length octets =
    let width = utf8_width octets in
    let rest = text_loop rem_code_points (length + width) (skip width octets) in
    if is_end octets
    then named length
    else if width == 0
    then name_invalid
    else if rem_code_points == 0
    then name_long
    else rest

abbrev pub base_string_length_max : ℕ
base_string_length_max = 247

abbrev pub fixed_string_length_max : ℕ
fixed_string_length_max = 255

unfoldable pub parse_base_string : Arg → NameResult
unfolding text_loop
parse_base_string arg = text_loop base_string_length_max 0 arg

-- the size with the NUL in place of the length
abbrev pub with_nul : NameResult → NameResult
with_nul (named length) = named (length + 1)
with_nul name_empty = name_empty
with_nul name_invalid = name_invalid
with_nul name_long = name_long

unfoldable pub parse_fixed_string : Arg → NameResult
unfolding text_loop
parse_fixed_string arg = with_nul (text_loop fixed_string_length_max 0 arg)
