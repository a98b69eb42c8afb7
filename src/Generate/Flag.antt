-- ===== src/Generate/Flag.antt =====
-- mysql_seed_file.h: flags, and the search for the next flag.
pub mod Match
use mysql_seed.Decimal.Parse.{strings_equal}
use mysql_seed.Prelude.{
  ℕ, ◌+◌, Bool, true, false, not, ◌&&◌, ◌||◌, List, [], ◌∷◌, ◌==◌, if◌then◌else◌, codes,
}

abbrev pub Arg : Type 0
Arg = List ℕ

-- `-` and then the long flag, from where the short one has been looked at
unfoldable pub long_flag_match : Arg → (long_flag : List ℕ) → Bool
long_flag_match [] long_flag = false
long_flag_match (c ∷ arg) long_flag = c == b'-' && strings_equal arg long_flag

-- Behind the first `-`: where the short flag matches and the argument goes on, the test for the long
-- one is made behind it.
unfoldable pub short_flag_match : Arg → (short_flag : ℕ) (long_flag : List ℕ) → Bool
unfolding long_flag_match
short_flag_match [] short_flag long_flag = false
short_flag_match (c ∷ []) short_flag long_flag =
    if c == short_flag then true else long_flag_match (c ∷ []) long_flag
short_flag_match (c ∷ d ∷ arg) short_flag long_flag =
    if c == short_flag
    then long_flag_match (d ∷ arg) long_flag
    else long_flag_match (c ∷ d ∷ arg) long_flag

unfoldable pub flag_match : Arg → (short_flag : ℕ) (long_flag : List ℕ) → Bool
unfolding short_flag_match
flag_match [] short_flag long_flag = false
flag_match (c ∷ arg) short_flag long_flag = c == b'-' && short_flag_match arg short_flag long_flag

unfoldable pub flag_match_count : List Arg → (short_flag : ℕ) (long_flag : List ℕ) → ℕ
flag_match_count [] short_flag long_flag = 0
flag_match_count (arg ∷ args) short_flag long_flag =
    let count_flags = flag_match_count args short_flag long_flag in
    if flag_match arg short_flag long_flag then 1 + count_flags else count_flags

unfoldable pub flag_match_next : List Arg → (short_flag : ℕ) (long_flag : List ℕ) → List Arg
flag_match_next [] short_flag long_flag = []
flag_match_next (arg ∷ args) short_flag long_flag =
    let rest = flag_match_next args short_flag long_flag in
    if flag_match arg short_flag long_flag then arg ∷ args else rest
