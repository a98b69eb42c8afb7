-- ===== src/Random/Span.antt =====
-- Numbers in a span, from the loop of `random_uint32_bound`.
use mysql_seed.Prelude.{
  ℕ, zero, suc, ◌+◌, ◌-◌, ◌*◌, ◌/◌, ◌%◌, ◌^◌, ◌≤◌, ◌<◌, ◌≡◌, refl, ap, ◌∙◌, some, arith, lt→ltb,
  le→ltb, leb, ltb, none, true, ◌&&◌,
}
use native.Mathlib.Nat.{mod-eq_of_lt, mod-lt, div-add-mod, mul-mod_left}
use mathlib.Core.Option
use mysql_seed.Random.{
  offset_number, Pcg32, pcg32_random_r, random_uint32_threshold, random_uint32_bound,
  random_uint32_bound_32_offset_32, random_uint32_from, random_uint32_upto, random_int32_in_range,
  above_min, fits_int,
}

-- `Drawn t n rng rng' x`: from `rng` the generator gives `n` numbers below `t` and then `x`, which is
-- not, and becomes `rng'`.
pub data Drawn (t : ℕ) : ℕ → Pcg32 → Pcg32 → ℕ → Type 0 where
  accepted :
      (rng : Pcg32)
      → t ≤ (pcg32_random_r rng).1
      → Drawn t 0 rng (pcg32_random_r rng).0 (pcg32_random_r rng).1
  rejected :
      (n : ℕ) (rng rng' : Pcg32) (x : ℕ)
      → (pcg32_random_r rng).1 < t
      → Drawn t n (pcg32_random_r rng).0 rng' x
      → Drawn t (suc n) rng rng' x

-- With more fuel than the numbers that are drawn in vain, `random_uint32_bound` returns the
-- remainder of the first number that is not below the threshold.
random_uint32_bound-Drawn :
    (fuel t span n : ℕ) (rng rng' : Pcg32) (x : ℕ)
    → n < fuel
    → Drawn t n rng rng' x
    → random_uint32_bound fuel t span rng ≡ some (rng', x % span)
unfolding random_uint32_bound
random_uint32_bound-Drawn zero t span n rng rng' x h d = absurd (omega arith)
random_uint32_bound-Drawn (suc fuel) t span zero rng rng' x h (accepted _ k) =
    rw (le→ltb (pcg32_random_r rng).1 t k) refl
random_uint32_bound-Drawn (suc fuel) t span (suc n) rng rng' x h (rejected _ _ _ _ k d) =
    rw (lt→ltb (pcg32_random_r rng).1 t k)
      (random_uint32_bound-Drawn fuel t span n (pcg32_random_r rng).0 rng' x (omega arith) d)

-- the numbers that are not below the threshold: as many for each remainder
whole : (m span q t : ℕ) → span * q + t ≡ m - span → span ≤ m → t < span → m - t ≡ (q + 1) * span
whole m span q t e h k = grind arith

-- For a span from 1 to 2 ^ 32 - 1 the threshold is below the span, so a draw below it is the
-- exception, and the numbers from the threshold up to 2 ^ 32 - 1, which `random_uint32_bound` takes
-- the remainder of, are a whole number of spans: no remainder is got from more of them than
-- another.
pub random_uint32_threshold-even :
    (span : ℕ)
    → 0 < span
    → span < 2 ^ 32
    → let t = random_uint32_threshold span in (t < span) × ((2 ^ 32 - t) % span ≡ 0)
random_uint32_threshold-even span h k =
    let e = mod-eq_of_lt {n = 2 ^ 32 - span} {m = 2 ^ 32} (omega arith) in
    let l = mod-lt (2 ^ 32 - span) h in
    rw e (
      l,
      rw
          (whole (2 ^ 32) span ((2 ^ 32 - span) / span) ((2 ^ 32 - span) % span)
            (div-add-mod (2 ^ 32 - span) span) (omega arith) l)
          (mul-mod_left ((2 ^ 32 - span) / span + 1) span),
    )

offset-Drawn :
    (fuel t span offset n : ℕ) (rng rng' : Pcg32) (x : ℕ)
    → n < fuel
    → Drawn t n rng rng' x
    → random_uint32_bound_32_offset_32 fuel t span offset rng
      ≡ some (rng', (x % span + offset) % 2 ^ 32)
unfolding random_uint32_bound_32_offset_32
offset-Drawn fuel t span offset n rng rng' x h d =
    ap (Option.map (offset_number offset)) (random_uint32_bound-Drawn fuel t span n rng rng' x h d)

in_int : (a b : ℕ) → a ≤ b → b < a + 2 ^ 31 → (leb a (b + 2 ^ 31) && ltb b (a + 2 ^ 31)) ≡ true
in_int a b h k = ground arith

-- from -1 to INT32_MAX the difference is no int
wide_range : (rng : Pcg32) → random_int32_in_range 1 4294967295 2147483647 rng ≡ none
unfolding random_int32_in_range fits_int
wide_range rng = refl

module _ (fuel n : ℕ) (rng rng' : Pcg32) (x : ℕ) (h : n < fuel) where
  -- Once the generator gives a number that is not below the threshold, within the fuel,
  -- `random_uint32_from` returns a number from `from` on, for any `from` but 0.
  pub random_uint32_from-range :
      (from : ℕ)
      → 0 < from
      → from < 2 ^ 32
      → Drawn (random_uint32_threshold (2 ^ 32 - from)) n rng rng' x
      → (y : ℕ) × (random_uint32_from fuel from rng ≡ some (rng', y)) × (from ≤ y) × (y < 2 ^ 32)
  unfolding random_uint32_from
  random_uint32_from-range from p q d =
      let e : (2 ^ 32 - 1 - from + 1) % 2 ^ 32 ≡ 2 ^ 32 - from = omega arith in
      let m = mod-lt x {m = 2 ^ 32 - from} (omega arith) in
      (
        x % (2 ^ 32 - from) + from,
        rw e (
            offset-Drawn fuel (random_uint32_threshold (2 ^ 32 - from)) (2 ^ 32 - from) from n rng
              rng' x h d
            ∙ ap (λ y. some (rng', y)) (mod-eq_of_lt {m = 2 ^ 32} (omega arith))),
        omega arith,
        omega arith,
      )

  random_uint32_upto-range :
      (upto : ℕ)
      → upto + 1 < 2 ^ 32
      → Drawn (random_uint32_threshold (upto + 1)) n rng rng' x
      → (y : ℕ) × (random_uint32_upto fuel upto rng ≡ some (rng', y)) × (y ≤ upto)
  unfolding random_uint32_upto
  random_uint32_upto-range upto p d =
      let e : (upto + 1) % 2 ^ 32 ≡ upto + 1 = omega arith in
      let m = mod-lt x {m = upto + 1} (omega arith) in
      (
        x % (upto + 1),
        rw e (
            random_uint32_bound-Drawn fuel (random_uint32_threshold (upto + 1)) (upto + 1) n rng
              rng' x h d),
        omega arith,
      )

  -- Let the left bound be at most the right one, as signed numbers, with a difference that an int
  -- can hold (for a greater one the source is undefined), and let the generator give a number that
  -- is not below the threshold within the fuel (`Drawn`). Then `random_int32_in_range` returns an
  -- int32_t between the bounds, both included, as signed numbers (`above_min` orders them).
  pub random_int32_in_range-range :
      (l r : ℕ)
      → l < 2 ^ 32
      → r < 2 ^ 32
      → above_min l ≤ above_min r
      → above_min r < above_min l + 2 ^ 31
      → Drawn (random_uint32_threshold (above_min r - above_min l + 1)) n rng rng' x
      → (y : ℕ) × (random_int32_in_range fuel l r rng ≡ some (rng', y))
        × (y < 2 ^ 32)
        × (above_min l ≤ above_min y)
        × (above_min y ≤ above_min r)
  unfolding random_int32_in_range fits_int
  random_int32_in_range-range l r p q o w d =
      let s = above_min r - above_min l + 1 in
      let e : (r + 2 ^ 32 - l + 1) % 2 ^ 32 ≡ s = omega arith in
      let m = mod-lt x {m = s} (omega arith) in
      (
        (x % s + l) % 2 ^ 32,
        rw (e, in_int (above_min l) (above_min r) o w)
            (offset-Drawn fuel (random_uint32_threshold s) s l n rng rng' x h d),
        omega arith,
        omega arith,
        omega arith,
      )
