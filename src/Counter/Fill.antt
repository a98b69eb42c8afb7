-- ===== src/Counter/Fill.antt =====
-- counter_set_internals: all texts of a counter, written from the longest to the shortest. `pointers`
-- and `digits` are the two parts of the allocated memory; a pointer to a text is its distance from
-- `digits`.
use mathlib.Core.List.{reverse}
use mysql_seed.Prelude.{
  ℕ, zero, suc, ◌+◌, ◌-◌, ◌*◌, Option, none, some, ltb, if◌then◌else◌, List, [], ◌∷◌, ◌++◌,
  replicate,
}
use mysql_seed.Bytes.{Buffer, store, put}
use mysql_seed.Counter.{
  Internals, upto_max, counter_size_internals, mag_0_max, mag_1_max, mag_2_max, mag_3_max,
  mag_4_max, mag_5_max, mag_6_max, size_mag_0_1_str, size_mag_0_2_str, size_mag_0_3_str,
  size_mag_0_4_str, size_mag_0_5_str, size_mag_0_6_str, size_mag_0_7_str, count_buffer_increment,
}

pub record Texts : Type 0 where
  pub pointers : Buffer
  pub digits : Buffer

-- OFF_MAG_0_MIN to OFF_MAG_7_MIN
unfoldable pub off_mag_min : ℕ → ℕ
off_mag_min zero = 0
off_mag_min (suc zero) = mag_0_max
off_mag_min (suc (suc zero)) = mag_1_max
off_mag_min (suc (suc (suc zero))) = mag_2_max
off_mag_min (suc (suc (suc (suc zero)))) = mag_3_max
off_mag_min (suc (suc (suc (suc (suc zero))))) = mag_4_max
off_mag_min (suc (suc (suc (suc (suc (suc zero)))))) = mag_5_max
off_mag_min (suc (suc (suc (suc (suc (suc (suc _))))))) = mag_6_max

-- SIZE_MAG_0_0_STR to SIZE_MAG_0_7_STR
unfoldable pub size_mag_0_str_at : ℕ → ℕ
size_mag_0_str_at zero = 0
size_mag_0_str_at (suc zero) = size_mag_0_1_str
size_mag_0_str_at (suc (suc zero)) = size_mag_0_2_str
size_mag_0_str_at (suc (suc (suc zero))) = size_mag_0_3_str
size_mag_0_str_at (suc (suc (suc (suc zero)))) = size_mag_0_4_str
size_mag_0_str_at (suc (suc (suc (suc (suc zero))))) = size_mag_0_5_str
size_mag_0_str_at (suc (suc (suc (suc (suc (suc zero)))))) = size_mag_0_6_str
size_mag_0_str_at (suc (suc (suc (suc (suc (suc (suc _))))))) = size_mag_0_7_str

-- mag_0_min_string to mag_7_min_string, back to front up to `active`
abbrev pub mag_min_string : ℕ → List ℕ
mag_min_string mag = replicate mag b'0' ++ b'1' ∷ []

-- A text is stored at a pointer, and the pointer at an index; `cells` is the buffer back to front up to
-- `active`.
unfoldable pub write : Texts → ℕ → ℕ → List ℕ → Texts
write texts current pointer cells = record {
  pointers = store texts.pointers current pointer;
  digits = put texts.digits pointer (reverse cells ++ 0 ∷ []);
}

-- The loop of SET_RANGE_DIGITS_MAG_UPTO for `until - current` turns, at least one; `size` is that of
-- a text of the magnitude.
unfoldable pub set_range : ℕ → ℕ → Texts → ℕ → List ℕ → ℕ → Texts
set_range zero size texts pointer cells current = texts
set_range (suc zero) size texts pointer cells current = write texts current pointer cells
set_range (suc (suc turns)) size texts pointer cells current =
    set_range (suc turns) size (write texts current pointer cells) (pointer + size)
      (count_buffer_increment cells) (suc current)

-- The switch from the case of a magnitude on, falling through to the default.
unfoldable pub set_magnitudes : ℕ → ℕ → Texts → Texts
set_magnitudes zero until texts = set_range until 2 texts (size_mag_0_str_at 0) (mag_min_string 0) 0
set_magnitudes (suc mag) until texts =
    let from = off_mag_min (suc mag) in
    set_magnitudes mag from (
      set_range (until - from) (mag + 3) texts (size_mag_0_str_at (suc mag))
        (mag_min_string (suc mag)) from)

unfoldable pub counter_set_internals : ℕ → Internals → Texts → Texts
counter_set_internals upto internals texts =
    set_magnitudes internals.mag_upto upto
      (record texts { pointers = store texts.pointers upto internals.size_digits })

pub data Built : Type 0 where
  upto_max_exceeded : Built
  alloc_failure : Built
  built : Texts → Built

-- `malloc` grants memory of a size, with what stands in it, or none. A pointer takes 8 bytes.
unfoldable pub counter_init_internals : (ℕ → Option Texts) → ℕ → Built
counter_init_internals malloc upto =
    if ltb upto_max upto
    then upto_max_exceeded
    else let internals = counter_size_internals upto in
      elim (malloc (8 * (upto + 1) + internals.size_digits)) [
        | none ↦ alloc_failure
        | some texts ↦ built (counter_set_internals upto internals texts)
      ]
