-- ===== src/Tests/Tables.antt =====
-- Groups of rows and random numbers.
use mysql_seed.Prelude.{
  ℕ, ◌-◌, ◌%◌, ◌^◌, ◌≤◌, ◌<◌, ◌≡◌, refl, some, List, [], ◌∷◌, ◌++◌, arith, length, sum,
}
use mysql_seed.Group.{partition_groups_even}
use mysql_seed.Group.Even.{even_groups, partition_groups_even-share}
use mysql_seed.Random.{
  Pcg32, pcg32_random_r, random_uint32_threshold, random_int32_in_range, above_min,
}
use mysql_seed.Random.Span.{
  Drawn, accepted, random_uint32_threshold-even, random_int32_in_range-range,
}

abbrev places : List ℕ
places = 0 ∷ 0 ∷ 0 ∷ []

partition_groups_even-share_example :
    (partition_groups_even (7 ∷ 0 ∷ 0 ∷ 0 ∷ 9 ∷ []) 1 3 11 ≡ (7 ∷ (even_groups 3 11 ++ 9 ∷ []), 4))
    × (length (even_groups 3 11) ≡ 3)
    × (sum (even_groups 3 11) ≡ 11)
partition_groups_even-share_example =
    partition_groups_even-share (7 ∷ []) places (9 ∷ []) 11 (omega arith) (omega arith)

abbrev rng : Pcg32
rng = record { state = 9600629759793949339; increment = 15726070495360670683 }

abbrev next_rng : Pcg32
next_rng = (pcg32_random_r rng).0

abbrev number : ℕ
number = (pcg32_random_r rng).1

number_lem : number ≡ 355248013
unfolding pcg32_random_r
number_lem = refl

first_draw : (t : ℕ) → t ≤ 1000000 → Drawn t 0 rng next_rng number
first_draw t h = accepted rng (omega (arith, number_lem))

random_uint32_threshold-even_example :
    (random_uint32_threshold 10 < 10) × ((2 ^ 32 - random_uint32_threshold 10) % 10 ≡ 0)
random_uint32_threshold-even_example = random_uint32_threshold-even 10 (omega arith) (omega arith)

-- from -5 to 4
random_int32_in_range-range_example :
    (y : ℕ) × (random_int32_in_range 1 4294967291 4 rng ≡ some (next_rng, y))
    × (y < 2 ^ 32)
    × (above_min 4294967291 ≤ above_min y)
    × (above_min y ≤ above_min 4)
random_int32_in_range-range_example =
    random_int32_in_range-range 1 0 rng next_rng number (omega arith) 4294967291 4 (omega arith)
      (omega arith) (omega arith) (omega arith) (first_draw 6 (omega arith))
