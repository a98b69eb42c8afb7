-- ===== src/Generate/Count.antt =====
-- mysql_seed_generate.h: counts on the command line; none where an error is reported.
use mysql_seed.Decimal.Parse.{parse_uint}
use mysql_seed.Generate.Flag.{Arg}
use mysql_seed.Prelude.{ℕ, Option, none, some, ◌>>=◌, ◌==◌, ltb, if◌then◌else◌}

-- UPTO_MAX for a size_t of 32 bits or more, and HASH_LENGTH_MAX
abbrev pub upto_max : ℕ
upto_max = 99999999

abbrev pub hash_length_max : ℕ
hash_length_max = 255

abbrev pub bounded_count : ℕ → ℕ → Option ℕ
bounded_count most parsed =
    if parsed == 0 then none else if ltb most parsed then none else some parsed

unfoldable pub parse_row_count : Arg → Option ℕ
parse_row_count arg = parse_uint arg >>= λ parsed. bounded_count upto_max parsed

unfoldable pub parse_hash_length : Arg → Option ℕ
parse_hash_length arg = parse_uint arg >>= λ parsed. bounded_count hash_length_max parsed

unfoldable pub parse_grp_count : (row_count : ℕ) → Arg → Option ℕ
parse_grp_count row_count arg = parse_uint arg >>= λ parsed. bounded_count row_count parsed
