-- ===== src/Counter.antt =====
-- generate/counter.h: the decimal counters that fill unique integer columns, in the build with
-- LARGE_UPTO_MAX = 1 (generate/generator.h): up to eight digits. The constants are those of the
-- header, under their names in lower case.
pub mod Increment
pub mod Size
pub mod Fill
pub mod Level
pub mod Shown
pub mod Range
pub mod Layout
use mysql_seed.Prelude.{
  ℕ, zero, suc, ◌+◌, ◌-◌, ◌*◌, ◌/◌, ◌%◌, ◌^◌, ◌≤◌, ◌<◌, min, ◌≡◌, refl, sym, ap, ◌∙◌, ◌≢◌, ◌↔◌, ◌⊎◌,
  inl, inr, Bool, true, false, not, ◌&&◌, ◌||◌, Option, none, some, List, [], ◌∷◌, ◌++◌, map, arith,
  ltb, leb, ◌==◌, if◌then◌else◌, eq→==, ==→eq, lt→ltb, ltb→lt, le→ltb, Bool-cases, Option-cases,
  length, get_or, set, replicate, length-append, length-replicate, all_below, all_below_sound, sum,
  sum-append, codes,
}
use mysql_seed.Cells.{at, set_string, next_digit, switch_on}

abbrev pub mag_0_max : ℕ
mag_0_max = 9

abbrev pub mag_1_max : ℕ
mag_1_max = 99

abbrev pub mag_1_min : ℕ
mag_1_min = 10

abbrev pub mag_2_max : ℕ
mag_2_max = 999

abbrev pub mag_2_min : ℕ
mag_2_min = 100

abbrev pub mag_3_max : ℕ
mag_3_max = 9999

abbrev pub mag_3_min : ℕ
mag_3_min = 1000

abbrev pub mag_4_max : ℕ
mag_4_max = 99999

abbrev pub mag_4_min : ℕ
mag_4_min = 10000

abbrev pub mag_5_max : ℕ
mag_5_max = 999999

abbrev pub mag_5_min : ℕ
mag_5_min = 100000

abbrev pub mag_6_max : ℕ
mag_6_max = 9999999

abbrev pub mag_6_min : ℕ
mag_6_min = 1000000

abbrev pub mag_7_min : ℕ
mag_7_min = 10000000

abbrev pub size_mag_0_str : ℕ
size_mag_0_str = 2

abbrev pub size_mag_1_str : ℕ
size_mag_1_str = 3

abbrev pub size_mag_2_str : ℕ
size_mag_2_str = 4

abbrev pub size_mag_3_str : ℕ
size_mag_3_str = 5

abbrev pub size_mag_4_str : ℕ
size_mag_4_str = 6

abbrev pub size_mag_5_str : ℕ
size_mag_5_str = 7

abbrev pub size_mag_6_str : ℕ
size_mag_6_str = 8

abbrev pub size_mag_7_str : ℕ
size_mag_7_str = 9

-- the bytes of the numbers with one to `k` digits, each with its NUL
abbrev pub size_mag_0_1_str : ℕ
size_mag_0_1_str = 18

abbrev pub size_mag_0_2_str : ℕ
size_mag_0_2_str = size_mag_0_1_str + 270

abbrev pub size_mag_0_3_str : ℕ
size_mag_0_3_str = size_mag_0_2_str + 3600

abbrev pub size_mag_0_4_str : ℕ
size_mag_0_4_str = size_mag_0_3_str + 45000

abbrev pub size_mag_0_5_str : ℕ
size_mag_0_5_str = size_mag_0_4_str + 540000

abbrev pub size_mag_0_6_str : ℕ
size_mag_0_6_str = size_mag_0_5_str + 6300000

abbrev pub size_mag_0_7_str : ℕ
size_mag_0_7_str = size_mag_0_6_str + 72000000

abbrev pub upto_max : ℕ
upto_max = 99999999

-- The part of `struct Counter` that describes its buffer.
pub record Internals : Type 0 where
  pub mag_upto : ℕ
  pub size_digits : ℕ

unfoldable pub counter_size_internals : ℕ → Internals
counter_size_internals upto =
    if ltb upto mag_4_min
    then (if ltb upto mag_2_min
        then (if ltb upto mag_1_min
            then record { mag_upto = 0; size_digits = size_mag_0_str * upto }
            else record {
              mag_upto = 1;
              size_digits = size_mag_0_1_str + size_mag_1_str * (upto - mag_0_max);
            })
        else if ltb upto mag_3_min
        then record {
          mag_upto = 2;
          size_digits = size_mag_0_2_str + size_mag_2_str * (upto - mag_1_max);
        }
        else record {
          mag_upto = 3;
          size_digits = size_mag_0_3_str + size_mag_3_str * (upto - mag_2_max);
        })
    else if ltb upto mag_6_min
    then (if ltb upto mag_5_min
        then record {
          mag_upto = 4;
          size_digits = size_mag_0_4_str + size_mag_4_str * (upto - mag_3_max);
        }
        else record {
          mag_upto = 5;
          size_digits = size_mag_0_5_str + size_mag_5_str * (upto - mag_4_max);
        })
    else if ltb upto mag_7_min
    then record {
      mag_upto = 6;
      size_digits = size_mag_0_6_str + size_mag_6_str * (upto - mag_5_max);
    }
    else record {
      mag_upto = 7;
      size_digits = size_mag_0_7_str + size_mag_7_str * (upto - mag_6_max);
    }

pub counter_size_upto : ℕ → ℕ
counter_size_upto upto =
    if ltb upto mag_4_min
    then (if ltb upto mag_2_min
        then (if ltb upto mag_1_min
            then size_mag_0_str * upto
            else size_mag_0_1_str + size_mag_1_str * (upto - mag_0_max))
        else if ltb upto mag_3_min
        then size_mag_0_2_str + size_mag_2_str * (upto - mag_1_max)
        else size_mag_0_3_str + size_mag_3_str * (upto - mag_2_max))
    else if ltb upto mag_6_min
    then (if ltb upto mag_5_min
        then size_mag_0_4_str + size_mag_4_str * (upto - mag_3_max)
        else size_mag_0_5_str + size_mag_5_str * (upto - mag_4_max))
    else if ltb upto mag_7_min
    then size_mag_0_6_str + size_mag_6_str * (upto - mag_5_max)
    else size_mag_0_7_str + size_mag_7_str * (upto - mag_6_max)

pub counter_size_mag_upto : ℕ → ℕ
counter_size_mag_upto upto =
    if ltb upto mag_4_min
    then (if ltb upto mag_2_min
        then (if ltb upto mag_1_min then size_mag_0_str else size_mag_1_str)
        else if ltb upto mag_3_min
        then size_mag_2_str
        else size_mag_3_str)
    else if ltb upto mag_6_min
    then (if ltb upto mag_5_min then size_mag_4_str else size_mag_5_str)
    else if ltb upto mag_7_min
    then size_mag_6_str
    else size_mag_7_str

-- The last switch has no case for '8': its default writes '9'.
pub last_digit : ℕ → ℕ
last_digit c =
    if c == b'0'
    then b'1'
    else if c == b'1'
    then b'2'
    else if c == b'2'
    then b'3'
    else if c == b'3'
    then b'4'
    else if c == b'4'
    then b'5'
    else if c == b'5'
    then b'6'
    else if c == b'6'
    then b'7'
    else if c == b'7'
    then b'8'
    else b'9'

-- `cells` are the bytes at and before `digit`.
unfoldable pub count_buffer_increment : List ℕ → List ℕ
count_buffer_increment cells = switch_on next_digit cells 0 0 (
    switch_on next_digit cells 1 1 (
      switch_on next_digit cells 2 2 (
        switch_on next_digit cells 3 3 (
          switch_on next_digit cells 4 4 (
            switch_on next_digit cells 5 5 (
              switch_on next_digit cells 6 6
                (set_string cells 7 (last_digit (at cells 7) ∷ replicate 7 b'0'))))))))
