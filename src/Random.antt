-- ===== src/Random.antt =====
-- random/random.h and the 32-bit generator of random/pcg_random.h: numbers in a span. The loop
-- `do { random = random_uint32(); } while (random < threshold);` ends when the generator gives a
-- number that is not below the threshold, so it runs on fuel; `none` is no end within the fuel.
pub mod Pcg
pub mod Span
use mysql_seed.Prelude.{
  ℕ, zero, suc, ◌+◌, ◌-◌, ◌*◌, ◌/◌, ◌%◌, ◌^◌, ◌≤◌, ◌<◌, min, ◌≡◌, refl, sym, ap, ◌∙◌, ◌≢◌, ◌↔◌, ◌⊎◌,
  inl, inr, Bool, true, false, not, ◌&&◌, ◌||◌, Option, none, some, List, [], ◌∷◌, ◌++◌, map, arith,
  ltb, leb, ◌==◌, if◌then◌else◌, eq→==, ==→eq, lt→ltb, ltb→lt, le→ltb, ne→==, Bool-cases,
  Option-cases, length, get_or, set, replicate, length-append, length-replicate, all_below,
  all_below_sound, sum, sum-append, codes,
}
use mathlib.Core.Option
use Prim.Native.Nat.{bit_or, bit_xor}

-- struct pcg_state_setseq_64, as pcg32_random_t; both are uint64_t
pub record Pcg32 : Type 0 where
  pub state : ℕ
  pub increment : ℕ

-- (value >> rotate) | (value << ((-rotate) & 31)), in uint32_t
unfoldable pub uint32_rotate_right : ℕ → ℕ → ℕ
uint32_rotate_right value rotate =
    bit_or (value / 2 ^ rotate) (value * 2 ^ ((2 ^ 32 - rotate) % 32) % 2 ^ 32)

-- PCG_DEFAULT_MULTIPLIER_64
abbrev pub pcg_default_multiplier_64 : ℕ
pcg_default_multiplier_64 = 6364136223846793005

pub pcg_setseq_64_step_r : Pcg32 → Pcg32
pcg_setseq_64_step_r rng = record rng {
  state = (rng.state * pcg_default_multiplier_64 + rng.increment) % 2 ^ 64;
}

-- `init_seq` is shifted in 64 bits
pub pcg32_random_t_init : ℕ → Pcg32
pcg32_random_t_init init_seq = record { state = 0; increment = bit_or (init_seq * 2 % 2 ^ 64) 1 }

-- `rng_address` and `seed_address` are the two pointers, which choose the sequence.
pub pcg32_srandom_r : ℕ → ℕ → ℕ → Pcg32
unfolding pcg_setseq_64_step_r pcg32_random_t_init
pcg32_srandom_r rng_address seed_address seed =
    let rng = pcg_setseq_64_step_r (pcg32_random_t_init (bit_or rng_address seed_address)) in
    pcg_setseq_64_step_r (record rng { state = (rng.state + seed) % 2 ^ 64 })

-- The new generator and the number.
unfoldable pub pcg32_random_r : Pcg32 → Pcg32 × ℕ
unfolding pcg_setseq_64_step_r uint32_rotate_right
pcg32_random_r rng =
    let state = rng.state in
    (
      pcg_setseq_64_step_r rng,
      uint32_rotate_right (bit_xor (state / 2 ^ 18) state / 2 ^ 27 % 2 ^ 32) (state / 2 ^ 59),
    )

-- -span % span
abbrev pub random_uint32_threshold : ℕ → ℕ
random_uint32_threshold span = (2 ^ 32 - span) % 2 ^ 32 % span

pub random_uint32_bound : ℕ → ℕ → ℕ → Pcg32 → Option (Pcg32 × ℕ)
unfolding pcg32_random_r
random_uint32_bound zero threshold span rng = none
random_uint32_bound (suc fuel) threshold span rng =
    let (rng', random) = pcg32_random_r rng in
    let again = random_uint32_bound fuel threshold span rng' in
    if ltb random threshold then again else some (rng', random % span)

abbrev pub offset_number : ℕ → Pcg32 × ℕ → Pcg32 × ℕ
offset_number offset (rng, random) = (rng, (random + offset) % 2 ^ 32)

-- also random_int32_bound_32_offset_32, with an int32_t as its bits
pub random_uint32_bound_32_offset_32 : ℕ → ℕ → ℕ → ℕ → Pcg32 → Option (Pcg32 × ℕ)
random_uint32_bound_32_offset_32 fuel threshold span offset rng =
    Option.map (offset_number offset) (random_uint32_bound fuel threshold span rng)

-- A span of 0, from 0 on, is a division by zero in the source.
pub random_uint32_from : ℕ → ℕ → Pcg32 → Option (Pcg32 × ℕ)
unfolding random_uint32_bound_32_offset_32
random_uint32_from fuel from rng =
    let span = (2 ^ 32 - 1 - from + 1) % 2 ^ 32 in
    random_uint32_bound_32_offset_32 fuel (random_uint32_threshold span) span from rng

-- as is one up to UINT32_MAX
pub random_uint32_upto : ℕ → ℕ → Pcg32 → Option (Pcg32 × ℕ)
random_uint32_upto fuel upto rng =
    let span = (upto + 1) % 2 ^ 32 in
    random_uint32_bound fuel (random_uint32_threshold span) span rng

-- an int32_t, given by its bits, above INT32_MIN
abbrev pub above_min : ℕ → ℕ
above_min bits = (bits + 2 ^ 31) % 2 ^ 32

-- if b - a is an int, 32 bits wide
unfoldable pub fits_int : ℕ → ℕ → Bool
fits_int a b = leb (above_min a) (above_min b + 2 ^ 31) && ltb (above_min b) (above_min a + 2 ^ 31)

-- The bounds are int32_t, as their bits. `rbound - lbound` is a difference of two int: where it is
-- none itself the source is undefined, which is `none` here.
pub random_int32_in_range : ℕ → ℕ → ℕ → Pcg32 → Option (Pcg32 × ℕ)
unfolding random_uint32_bound_32_offset_32 fits_int
random_int32_in_range fuel lbound rbound rng =
    let span = (rbound + 2 ^ 32 - lbound + 1) % 2 ^ 32 in
    if fits_int lbound rbound
    then random_uint32_bound_32_offset_32 fuel (random_uint32_threshold span) span lbound rng
    else none
