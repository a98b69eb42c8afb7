-- ===== src/Tests/Text.antt =====
-- Counters, UUID strings and decimal texts.
use mysql_seed.Prelude.{
  ℕ, ◌+◌, ◌%◌, ◌^◌, ◌≤◌, ◌≡◌, refl, Option, some, List, [], ◌∷◌, ◌++◌, arith, length, codes,
}
use mysql_seed.Cells.{next_digit}
use mysql_seed.Cells.Carry.{All}
use mysql_seed.Cells.Digits.{IsDigit, IsHex, decimal_value, hexadecimal_value}
use mysql_seed.Decimal.{uint_digit_count, put_uint}
use mysql_seed.Decimal.Print.{put_uint-value}
use mysql_seed.Counter.{count_buffer_increment, counter_size_upto, counter_size_internals}
use mysql_seed.Counter.Increment.{count_buffer_increment-add_one}
use mysql_seed.Counter.Size.{size_of_texts, counter_size_upto-size_of_texts}
use mysql_seed.Bytes.{bytes, put, store}
use mysql_seed.Counter.Fill.{
  built, counter_init_internals, Texts, counter_set_internals, set_magnitudes, set_range, write,
  off_mag_min, size_mag_0_str_at,
}
use mysql_seed.Counter.Shown.{Shown}
use mysql_seed.Counter.Layout.{counter_init_internals-Shown, counter_init_internals-inside}
use mysql_seed.Uuid.{uuid_string_increment_time}
use mysql_seed.Uuid.Time.{time_cells, uuid_string_increment_time-add_one}

-- "1299", back to front
abbrev counter_1299 : List ℕ
counter_1299 = codes "9921"

counter_1300 : count_buffer_increment counter_1299 ≡ codes "0031"
unfolding count_buffer_increment next_digit
counter_1300 = refl

count_buffer_increment-add_one_example :
    All IsDigit (count_buffer_increment counter_1299)
    × (length (count_buffer_increment counter_1299) ≡ length counter_1299)
    × (decimal_value (count_buffer_increment counter_1299) ≡ decimal_value counter_1299 + 1)
count_buffer_increment-add_one_example =
    count_buffer_increment-add_one counter_1299 (omega arith) (omega arith) (omega arith)

counter_size_upto-size_of_texts_example : counter_size_upto 12 ≡ size_of_texts 12
counter_size_upto-size_of_texts_example = counter_size_upto-size_of_texts 12 (omega arith)

three_bytes : length (codes "   ") ≡ uint_digit_count 407
unfolding uint_digit_count
three_bytes = refl

abbrev fresh : Texts
fresh = record { pointers = λ _. 0; digits = λ _. 0 }

-- the memory of a counter up to 12
abbrev twelve : Texts
twelve = counter_set_internals 12 (counter_size_internals 12) fresh

twelve_texts :
    bytes twelve.digits 0 27
    ≡ 49 ∷ 0 ∷ 50 ∷ 0 ∷ 51 ∷ 0 ∷ 52 ∷ 0 ∷ 53 ∷ 0 ∷ 54 ∷ 0 ∷ 55 ∷ 0 ∷ 56 ∷ 0 ∷ 57 ∷ 0 ∷ 49 ∷ 48 ∷ 0
      ∷ 49 ∷ 49 ∷ 0 ∷ 49 ∷ 50 ∷ 0 ∷ []
unfolding counter_set_internals counter_size_internals set_magnitudes set_range write off_mag_min
    size_mag_0_str_at count_buffer_increment next_digit bytes put store
twelve_texts = refl

-- an allocator that always has memory
abbrev grant : ℕ → Option Texts
grant size = some fresh

counter_init_internals-Shown_example :
    (after : Texts) × (counter_init_internals grant 12 ≡ built after) × Shown after 10
counter_init_internals-Shown_example =
    counter_init_internals-Shown grant 12 fresh 10 (omega arith) (omega arith) refl (omega arith)

twelve_size : size_of_texts 12 ≤ 5000
unfolding size_of_texts uint_digit_count
twelve_size = omega arith

counter_init_internals-inside_example :
    (after : Texts) × (counter_init_internals grant 12 ≡ built after)
    × (after.pointers 12 ≡ size_of_texts 12)
    × (after.pointers 13 ≡ 0)
    × (after.digits 5000 ≡ 0)
counter_init_internals-inside_example =
    counter_init_internals-inside grant 12 fresh 13 5000 (omega arith) (omega arith) refl
      (omega arith) twelve_size

put_uint-value_example :
    (ds : List ℕ) × (put_uint (codes "b   aa") 4 407 ≡ (codes "b" ++ (ds ++ codes "aa"), 1))
    × All IsDigit ds
    × (length ds ≡ uint_digit_count 407)
    × (decimal_value ds ≡ 407)
put_uint-value_example =
    put_uint-value (codes "b") (codes "   ") (codes "aa") 407 (omega arith) three_bytes

-- the time 0x1 0000 ffff ffff, its least digit first
abbrev time_row : List ℕ
time_row = codes "ffffffff0000100"

time_row-IsHex : All IsHex time_row
time_row-IsHex = ground arith

uuid_string_increment_time-add_one_example :
    (row' : List ℕ) × (uuid_string_increment_time (time_cells time_row b'1' b'-' b'-') 10
      ≡ time_cells row' b'1' b'-' b'-')
    × All IsHex row'
    × (length row' ≡ 15)
    × (hexadecimal_value row' ≡ (hexadecimal_value time_row + 1) % 2 ^ 60)
uuid_string_increment_time-add_one_example =
    uuid_string_increment_time-add_one time_row b'1' b'-' b'-' refl time_row-IsHex
