-- ===== src/Counter/Layout.antt =====
-- What counter_set_internals leaves in memory.
use Prim.Native.Nat.pow
use mysql_seed.Prelude.{
  inl, inr, ℕ, zero, suc, ◌+◌, ◌-◌, ◌*◌, ◌^◌, ◌≤◌, ◌<◌, ◌≡◌, Option, some, le→ltb, refl, sym, ap,
  ◌∙◌, arith,
}
use mysql_seed.Bytes.{store, store-same, store-other}
use mysql_seed.Counter.{upto_max, counter_size_internals}
use mysql_seed.Counter.Size.{
  size_of_texts, counter_size_upto-size_of_texts, counter_size_internals-agree,
}
use mysql_seed.Counter.Level.{level}
use mysql_seed.Counter.Fill.{
  Texts, off_mag_min, size_mag_0_str_at, mag_min_string, set_range, set_magnitudes,
  counter_set_internals, built, counter_init_internals,
}
use mysql_seed.Counter.Shown.{lt-cases, Shown, Filled}
use mysql_seed.Counter.Shown.{downwards}
use mysql_seed.Counter.Range.{Row, set_range-Filled}

power_step : (mag : ℕ) → 10 ^ (mag + 1) ≡ 10 ^ mag * 10
power_step mag = let e : mag + 1 ≡ suc mag = omega arith in rw e (pow.suc 10 mag)

first-Row :
    (mag : ℕ) → mag < 8 → Row mag (off_mag_min mag) (size_mag_0_str_at mag) (mag_min_string mag)
first-Row mag h =
    let k = level mag h in
    let more : 10 ^ mag < 10 ^ (mag + 1) = omega (arith, k.first, power_step mag) in
    record {
      digits = k.digits;
      count = k.count;
      number = k.shows ∙ sym k.first;
      first = omega (arith, k.first);
      last = omega (arith, k.first, more);
      place = k.size;
    }

set_magnitudes-Filled :
    (mag until : ℕ) (texts : Texts)
    → mag < 8
    → off_mag_min mag < until
    → until < 10 ^ (mag + 1)
    → Filled texts (set_magnitudes mag until texts) 0 until
unfolding set_magnitudes off_mag_min
set_magnitudes-Filled zero until texts h p l =
    let end : 0 + until ≡ until = omega arith in
    let more =
      set_range-Filled until 0 2 texts (size_mag_0_str_at 0) (mag_min_string 0) 0 h refl
        (omega arith) (rw end l) (first-Row 0 h) in
    rw end at more
set_magnitudes-Filled (suc mag) until texts h p l =
    let from = off_mag_min (suc mag) in
    let high = level (suc mag) h in
    let low = level mag (omega arith) in
    let power = power_step mag in
    let up : 10 ^ suc mag ≡ 10 ^ (mag + 1) = ap (λ t. 10 ^ t) (omega arith) in
    let end : from + (until - from) ≡ until = omega arith in
    let more =
      set_range-Filled (until - from) (suc mag) (mag + 3) texts (size_mag_0_str_at (suc mag))
        (mag_min_string (suc mag)) from h (omega arith) (omega arith) (rw end l)
        (first-Row (suc mag) h) in
    downwards (omega arith) (omega arith) (rw end at more) (
      set_magnitudes-Filled mag from
        (set_range (until - from) (mag + 3) texts (size_mag_0_str_at (suc mag))
          (mag_min_string (suc mag)) from)
        (omega arith) (omega (arith, high.first, low.first, power, up))
        (omega (arith, high.first, up)))

mag_upto-bounds :
    (upto : ℕ)
    → 0 < upto
    → upto ≤ upto_max
    → let mag = (counter_size_internals upto).mag_upto in
      (mag < 8) × (off_mag_min mag < upto) × (upto < 10 ^ (mag + 1))
unfolding counter_size_internals off_mag_min
mag_upto-bounds upto p h = ground arith

counter_set_internals-Filled :
    (upto : ℕ) (texts : Texts)
    → 0 < upto
    → upto ≤ upto_max
    → Filled
        (record texts {
          pointers = store texts.pointers upto (counter_size_internals upto).size_digits;
        })
        (counter_set_internals upto (counter_size_internals upto) texts)
        0
        upto
unfolding counter_set_internals
counter_set_internals-Filled upto texts p h =
    let b = mag_upto-bounds upto p h in
    set_magnitudes-Filled (counter_size_internals upto).mag_upto upto
      (record texts {
        pointers = store texts.pointers upto (counter_size_internals upto).size_digits;
      })
      b.0 b.1 b.2

size_digits-size_of_texts :
    (upto : ℕ)
    → 0 < upto
    → upto ≤ upto_max
    → (counter_size_internals upto).size_digits ≡ size_of_texts upto
size_digits-size_of_texts upto p h =
    (counter_size_internals-agree upto p h).0 ∙ counter_size_upto-size_of_texts upto h

init_built :
    (malloc : ℕ → Option Texts) (upto : ℕ) (texts : Texts)
    → 0 < upto
    → upto ≤ upto_max
    → malloc (8 * (upto + 1) + size_of_texts upto) ≡ some texts
    → counter_init_internals malloc upto
      ≡ built (counter_set_internals upto (counter_size_internals upto) texts)
unfolding counter_init_internals
init_built malloc upto texts p h e =
    let granted =
      ap (λ size. malloc (8 * (upto + 1) + size)) (size_digits-size_of_texts upto p h) ∙ e in
    rw (le→ltb upto_max upto h, granted) refl

-- For "upto" from 1 to `upto_max`, if the allocator grants the memory for "upto" + 1 pointers and
-- the texts of 1 to "upto", `counter_init_internals` succeeds, and the pointer at each index i
-- below "upto" leads behind the texts of the numbers up to i, to the decimal digits of i + 1, as
-- many as uint_digit_count says, and a NUL (`Shown`).
pub counter_init_internals-Shown :
    (malloc : ℕ → Option Texts) (upto : ℕ) (texts : Texts) (i : ℕ)
    → 0 < upto
    → upto ≤ upto_max
    → malloc (8 * (upto + 1) + size_of_texts upto) ≡ some texts
    → i < upto
    → (after : Texts) × (counter_init_internals malloc upto ≡ built after) × Shown after i
counter_init_internals-Shown malloc upto texts i p h e l = (
  counter_set_internals upto (counter_size_internals upto) texts,
  init_built malloc upto texts p h e,
  (counter_set_internals-Filled upto texts p h).shown i (omega arith) l,
)

-- Under the same conditions the pointer at "upto" is the end of the texts of 1 to "upto", and
-- `counter_init_internals` writes to no later pointer and to no byte of the digits from that end
-- on.
pub counter_init_internals-inside :
    (malloc : ℕ → Option Texts) (upto : ℕ) (texts : Texts) (i b : ℕ)
    → 0 < upto
    → upto ≤ upto_max
    → malloc (8 * (upto + 1) + size_of_texts upto) ≡ some texts
    → upto < i
    → size_of_texts upto ≤ b
    → (after : Texts) × (counter_init_internals malloc upto ≡ built after)
      × (after.pointers upto ≡ size_of_texts upto)
      × (after.pointers i ≡ texts.pointers i)
      × (after.digits b ≡ texts.digits b)
counter_init_internals-inside malloc upto texts i b p h e l m =
    let f = counter_set_internals-Filled upto texts p h in
    let size = (counter_size_internals upto).size_digits in
    (
      counter_set_internals upto (counter_size_internals upto) texts,
      init_built malloc upto texts p h e,
      f.pointers_above upto (omega arith)
          ∙ store-same texts.pointers upto size
          ∙ size_digits-size_of_texts upto p h,
      f.pointers_above i (omega arith) ∙ store-other texts.pointers upto size i (omega arith),
      f.digits_above b m,
    )

pub counter_init_internals-pointers :
    (malloc : ℕ → Option Texts) (upto : ℕ) (texts : Texts)
    → 0 < upto
    → upto ≤ upto_max
    → malloc (8 * (upto + 1) + size_of_texts upto) ≡ some texts
    → (after : Texts) × (counter_init_internals malloc upto ≡ built after)
      × ((i : ℕ) → i ≤ upto → after.pointers i ≡ size_of_texts i)
counter_init_internals-pointers malloc upto texts p h e =
    let f = counter_set_internals-Filled upto texts p h in
    let size = (counter_size_internals upto).size_digits in
    (
      counter_set_internals upto (counter_size_internals upto) texts,
      init_built malloc upto texts p h e,
      λ i l. elim (lt-cases i upto) [
        | inl k ↦ (f.shown i (omega arith) k).pointer
        | inr k ↦
            let e' : i ≡ upto = omega arith in
            rw e' (
              f.pointers_above upto (omega arith)
              ∙ store-same texts.pointers upto size
              ∙ size_digits-size_of_texts upto p h)
      ],
    )
