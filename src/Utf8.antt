-- ===== src/Utf8.antt =====
-- string/utf8_utils.h: the width of a UTF-8 code point. Octets behind the end of a string are its NUL
-- and what follows it; no more than the NUL is read.
pub mod Automaton
use mysql_seed.Prelude.{ℕ, zero, suc, ◌/◌, ◌%◌, Bool, not, ◌||◌, List, [], ◌∷◌, ◌==◌, if◌then◌else◌}

-- `(octet & mask) == 0` for a mask of one bit
abbrev pub bit_clear : ℕ → ℕ → Bool
bit_clear mask octet = octet / mask % 2 == 0

unfoldable pub utf8_head_width : ℕ → ℕ
utf8_head_width head =
    if bit_clear 128 head
    then 1
    else if bit_clear 64 head
    then 0
    else if bit_clear 32 head
    then 2
    else if bit_clear 16 head
    then 3
    else if bit_clear 8 head
    then 4
    else 0

-- The loop over the octets behind the head, of which `n` are left up to `last_octet`. The end of the
-- string is the NUL, whose highest bit is clear.
unfoldable pub utf8_rest : (width n : ℕ) → List ℕ → ℕ
utf8_rest width zero octets = width
utf8_rest width (suc n) [] = 0
utf8_rest width (suc n) (octet ∷ octets) =
    let more = utf8_rest width n octets in
    if bit_clear 128 octet || not (bit_clear 64 octet) then 0 else more

-- the octets behind the head that a width stands for
abbrev pub behind_head : ℕ → ℕ
behind_head zero = 0
behind_head (suc n) = n

unfoldable pub utf8_width : List ℕ → ℕ
unfolding utf8_head_width utf8_rest
utf8_width [] = 1
utf8_width (head ∷ octets) =
    let width = utf8_head_width head in
    if width == 0 then 0 else utf8_rest width (behind_head width) octets

-- `octets += n`
abbrev pub skip : ℕ → List ℕ → List ℕ
skip zero octets = octets
skip (suc n) [] = []
skip (suc n) (_ ∷ octets) = skip n octets
