-- ===== src/Uuid/ClockSequence.antt =====
-- `uuid_state_increment_clk_seq` and the number that the clock sequence shows.
use mysql_seed.Prelude.{ℕ, ◌+◌, ◌%◌, ◌^◌, ◌≡◌, List, [], ◌∷◌, ◌++◌, arith, length}
use mysql_seed.Cells.{next_hex}
use mysql_seed.Cells.Carry.{carry, All}
use mysql_seed.Cells.Digits.{hexadecimal-carry, IsHex, hexadecimal_value}
use mysql_seed.Uuid.{uuid_state_increment_clk_seq}

clk_seq-carry :
    (a b c d : ℕ) (rest : List ℕ)
    → uuid_state_increment_clk_seq (a ∷ b ∷ c ∷ d ∷ rest)
      ≡ carry next_hex (a ∷ b ∷ c ∷ d ∷ []) ++ rest
unfolding uuid_state_increment_clk_seq carry
clk_seq-carry a b c d rest = ground arith

-- `uuid_state_increment_clk_seq` leaves four hexadecimal digits that show the next number modulo
-- 2^16, and writes nowhere else.
uuid_state_increment_clk_seq-add_one :
    (a b c d : ℕ) (rest : List ℕ)
    → All IsHex (a ∷ b ∷ c ∷ d ∷ [])
    → (cs : List ℕ) × (uuid_state_increment_clk_seq (a ∷ b ∷ c ∷ d ∷ rest) ≡ cs ++ rest)
      × All IsHex cs
      × (length cs ≡ 4)
      × (hexadecimal_value cs ≡ (hexadecimal_value (a ∷ b ∷ c ∷ d ∷ []) + 1) % 2 ^ 16)
uuid_state_increment_clk_seq-add_one a b c d rest h =
    let k = hexadecimal-carry (a ∷ b ∷ c ∷ d ∷ []) h in
    (carry next_hex (a ∷ b ∷ c ∷ d ∷ []), clk_seq-carry a b c d rest, k.0, k.1, k.2)
