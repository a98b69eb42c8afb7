-- ===== src/Uuid/Time.antt =====
-- `uuid_string_increment_time` and the 60-bit time that a UUID string shows.
use mysql_seed.Prelude.{ℕ, ◌+◌, ◌%◌, ◌^◌, ◌≡◌, ◌∙◌, List, [], ◌∷◌, arith, length}
use mysql_seed.Cells.{next_hex}
use mysql_seed.Cells.Carry.{carry, All}
use mysql_seed.Cells.Digits.{hexadecimal-carry, IsHex, hexadecimal_value}
use mysql_seed.Uuid.{uuid_string_increment_time}

-- The 18 characters "LLLLLLLL-MMMM-vHHH" of a UUID string from back to front, by the digits of its
-- time (time_low, time_mid, time_high; the least first), its version digit and the two dashes.
abbrev pub time_cells : List ℕ → ℕ → ℕ → ℕ → List ℕ
time_cells (l0 ∷ l1 ∷ l2 ∷ l3 ∷ l4 ∷ l5 ∷ l6 ∷ l7 ∷ m0 ∷ m1 ∷ m2 ∷ m3 ∷ h0 ∷ h1 ∷ h2 ∷ []) v x y =
    h0 ∷ h1 ∷ h2 ∷ v ∷ x ∷ m0 ∷ m1 ∷ m2 ∷ m3 ∷ y ∷ l0 ∷ l1 ∷ l2 ∷ l3 ∷ l4 ∷ l5 ∷ l6 ∷ l7 ∷ []
time_cells _ v x y = []

time-carry :
    (row : List ℕ) (v x y : ℕ)
    → length row ≡ 15
    → uuid_string_increment_time (time_cells row v x y) 10 ≡ time_cells (carry next_hex row) v x y
unfolding uuid_string_increment_time carry
time-carry (l0 ∷ l1 ∷ l2 ∷ l3 ∷ l4 ∷ l5 ∷ l6 ∷ l7 ∷ m0 ∷ m1 ∷ m2 ∷ m3 ∷ h0 ∷ h1 ∷ h2 ∷ []) v x y l =
    ground arith
time-carry _ v x y l = absurd (omega arith)

-- For every time of fifteen hexadecimal digits, `uuid_string_increment_time` (called at the last
-- digit of time_low) leaves a time of fifteen hexadecimal digits that is one more modulo 2^60, and
-- leaves the version digit and the dashes as they are.
pub uuid_string_increment_time-add_one :
    (row : List ℕ) (v x y : ℕ)
    → length row ≡ 15
    → All IsHex row
    → (row' : List ℕ) × (uuid_string_increment_time (time_cells row v x y) 10
        ≡ time_cells row' v x y)
      × All IsHex row'
      × (length row' ≡ 15)
      × (hexadecimal_value row' ≡ (hexadecimal_value row + 1) % 2 ^ 60)
uuid_string_increment_time-add_one row v x y l h =
    let c = hexadecimal-carry row h in
    (carry next_hex row, time-carry row v x y l, c.0, c.1 ∙ l, rw l at c.2)
