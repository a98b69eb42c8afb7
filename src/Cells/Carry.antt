-- ===== src/Cells/Carry.antt =====
-- Incrementing a row of digits by carrying, the specification of the switch ladders, and the number
-- that the row stands for.
use Prim.Native.Nat.pow
use mysql_seed.Prelude.{
  ℕ, ◌+◌, ◌*◌, ◌^◌, ◌<◌, ◌≡◌, refl, ap, inl, inr, Bool, true, false, Option, none, some, List, [],
  ◌∷◌, arith, if◌then◌else◌, length, Option-cases,
}

-- Adds one to the first digit; a digit with no successor becomes '0' and the next one is taken.
unfoldable pub carry : (ℕ → Option ℕ) → List ℕ → List ℕ
carry next [] = []
carry next (c ∷ cs) =
    let over = b'0' ∷ carry next cs in elim (next c) [ some d ↦ d ∷ cs | none ↦ over ]

-- no digit of the row has a successor: the carry leaves the row
unfoldable pub overflows : (ℕ → Option ℕ) → List ℕ → Bool
overflows next [] = true
overflows next (c ∷ cs) = elim (next c) [ some _ ↦ false | none ↦ overflows next cs ]

abbrev pub All : (ℕ → Type 0) → List ℕ → Type 0
All P [] = Unit
All P (c ∷ cs) = P c × All P cs

-- A numeral system: what the characters stand for, and how `next` counts through them.
pub record Numerals (base : ℕ) (val : ℕ → ℕ) (next : ℕ → Option ℕ) (P : ℕ → Type 0) : Type 0 where
  pub digit_zero : P b'0' × (val b'0' ≡ 0)
  pub bounded : (c : ℕ) → P c → val c < base
  pub step : (c d : ℕ) → P c → next c ≡ some d → P d × (val d ≡ val c + 1)
  pub last : (c : ℕ) → P c → next c ≡ none → val c + 1 ≡ base

-- the number shown by a row of digits, its least digit first
abbrev pub value : ℕ → (ℕ → ℕ) → List ℕ → ℕ
value base val [] = 0
value base val (c ∷ cs) = val c + base * value base val cs

digit_below : (base d v : ℕ) {p : ℕ} → d < base → v < p → d + base * v < p * base
digit_below base d v h k = grind arith

carry_through :
    (base z c w v p : ℕ) (o : Bool)
    → c + 1 ≡ base
    → z ≡ 0
    → w + (if o then p else 0) ≡ v + 1
    → z + base * w + (if o then p * base else 0) ≡ c + base * v + 1
carry_through base z c w v p true h k e = omega (arith, ap (λ (t : ℕ). base * t) e)
carry_through base z c w v p false h k e = omega (arith, ap (λ (t : ℕ). base * t) e)

module _ {base : ℕ} {val : ℕ → ℕ} {next : ℕ → Option ℕ} {P : ℕ → Type 0}
    (n : Numerals base val next P) where
  pub carry-All : (cs : List ℕ) → All P cs → All P (carry next cs)
  unfolding carry
  carry-All [] h = h
  carry-All (c ∷ cs) h = elim (Option-cases (next c)) [
    | inl e ↦ rw (e, carry) (n.digit_zero.0, carry-All cs h.1)
    | inr (d, e) ↦ rw (e, carry) ((n.step c d h.0 e).0, h.1)
  ]

  pub length-carry : (cs : List ℕ) → length (carry next cs) ≡ length cs
  unfolding carry
  length-carry [] = refl
  length-carry (c ∷ cs) = ground (arith, length-carry cs)

  pub value-lt : (cs : List ℕ) → All P cs → value base val cs < base ^ length cs
  value-lt [] h = rw (pow.zero) (omega arith)
  value-lt (c ∷ cs) h =
      let more = value-lt cs h.1 in
      rw (pow.suc) (digit_below base (val c) (value base val cs) (n.bounded c h.0) more)

  -- what leaves the row is a one behind its last digit
  pub value-carry :
      (cs : List ℕ)
      → All P cs
      → value base val (carry next cs) + (if overflows next cs then base ^ length cs else 0)
        ≡ value base val cs + 1
  unfolding carry overflows
  value-carry [] h = omega (arith, pow.zero base)
  value-carry (c ∷ cs) h = elim (Option-cases (next c)) [
    | inl e ↦
        rw (e, carry, overflows)
          (rw (pow.suc) (
            carry_through base (val b'0') (val c) (value base val (carry next cs))
              (value base val cs) (base ^ length cs) (overflows next cs) (n.last c h.0 e)
              n.digit_zero.1 (value-carry cs h.1)))
    | inr (d, e) ↦ rw (e, carry, overflows) (omega (arith, (n.step c d h.0 e).1))
  ]
