-- ===== src/Utf8/Automaton.antt =====
-- The well-formed strings as an automaton that reads one octet at a time.
use mysql_seed.Prelude.{
  ℕ, zero, suc, ◌+◌, ◌≤◌, ◌<◌, ◌≡◌, refl, ◌⊎◌, inl, inr, Bool, not, ◌&&◌, ◌||◌, Option, none, some,
  List, [], ◌∷◌, arith, ltb, leb, if◌then◌else◌, length, Bool-cases, ap,
}
use mysql_seed.Cells.Carry.{All}
use mysql_seed.Utf8.{utf8_head_width, utf8_rest, utf8_width, skip, bit_clear}

abbrev pub IsOctet : ℕ → Type 0
IsOctet c = c < 256

-- 10xxxxxx
abbrev pub is_continuation : ℕ → Bool
is_continuation c = leb 128 c && ltb c 192

abbrev pub one_more : Option ℕ → Option ℕ
one_more (some n) = some (suc n)
one_more none = none

-- How many code points a string has, with `pending` octets to come of the code point that has begun;
-- none for a string that is not well-formed.
unfoldable pub code_points : (pending : ℕ) → List ℕ → Option ℕ
code_points zero [] = some 0
code_points (suc k) [] = none
code_points zero (c ∷ s) =
    let ascii = one_more (code_points 0 s) in
    let two = one_more (code_points 1 s) in
    let three = one_more (code_points 2 s) in
    let four = one_more (code_points 3 s) in
    if ltb c 128
    then ascii
    else if ltb c 192
    then none
    else if ltb c 224
    then two
    else if ltb c 240
    then three
    else if ltb c 248
    then four
    else none
code_points (suc k) (c ∷ s) = let more = code_points k s in if is_continuation c then more else none

continuation-bits :
    (c : ℕ) → IsOctet c → bit_clear 128 c || not (bit_clear 64 c) ≡ not (is_continuation c)
continuation-bits c h = ground arith

one_longer : {A B C : Type 0} {n l : ℕ} → (A × (n ≤ l) × B) ⊎ C → (A × (suc n ≤ suc l) × B) ⊎ C
one_longer (inl (a, h, b)) = inl (a, omega arith, b)
one_longer (inr c) = inr c

-- what the loop of `utf8_width` makes of the octets behind a head
rest-code_points :
    (width n : ℕ) (s : List ℕ)
    → All IsOctet s
    → ((utf8_rest width n s ≡ width)
        × (n ≤ length s)
        × (code_points n s ≡ code_points 0 (skip n s)))
      ⊎ ((utf8_rest width n s ≡ 0) × (code_points n s ≡ none))
unfolding utf8_rest code_points
rest-code_points width zero s h = inl (refl, omega arith, refl)
rest-code_points width (suc n) [] h = inr (refl, refl)
rest-code_points width (suc n) (c ∷ s) (h, hs) = elim (Bool-cases (is_continuation c)) [
  | inl e ↦ rw (continuation-bits c h, e) (one_longer (rest-code_points width n s hs))
  | inr e ↦ rw (continuation-bits c h, e) (inr (refl, refl))
]

head_width-table :
    (c : ℕ)
    → IsOctet c
    → utf8_head_width c ≡ (
        if ltb c 128
        then 1
        else if ltb c 192
        then 0
        else if ltb c 224
        then 2
        else if ltb c 240
        then 3
        else if ltb c 248
        then 4
        else 0)
unfolding utf8_head_width
head_width-table c h = ground arith

-- What a width says of the code points `points` of a string that has not ended: none for the width
-- 0, and otherwise one and those behind it.
abbrev pub Widens : (points : Option ℕ) → List ℕ → ℕ → Type 0
Widens points s w =
    ((w ≡ 0) × (points ≡ none))
    ⊎ ((0 < w) × (w ≤ length s) × (points ≡ one_more (code_points 0 (skip w s))))

wide :
    (c k : ℕ) (s : List ℕ)
    → All IsOctet s
    → Widens (one_more (code_points k s)) (c ∷ s) (utf8_rest (suc k) k s)
wide c k s h = elim (rest-code_points (suc k) k s h) [
  | inl (w, l, p) ↦ rw w (inr (omega arith, omega arith, ap one_more p))
  | inr (w, p) ↦ rw w (inl (refl, ap one_more p))
]

pub utf8_width-Widens :
    (c : ℕ) (s : List ℕ)
    → All IsOctet (c ∷ s)
    → Widens (code_points 0 (c ∷ s)) (c ∷ s) (utf8_width (c ∷ s))
unfolding utf8_width code_points
utf8_width-Widens c s (h, hs) = rw (head_width-table c h) (elim (Bool-cases (ltb c 128)) [
  | inl e ↦ rw e (inr (omega arith, omega arith, refl))
  | inr e1 ↦ elim (Bool-cases (ltb c 192)) [
    | inl e ↦ rw (e1, e) (inl (refl, refl))
    | inr e2 ↦ elim (Bool-cases (ltb c 224)) [
      | inl e ↦ rw (e1, e2, e) (wide c 1 s hs)
      | inr e3 ↦ elim (Bool-cases (ltb c 240)) [
        | inl e ↦ rw (e1, e2, e3, e) (wide c 2 s hs)
        | inr e4 ↦ elim (Bool-cases (ltb c 248)) [
          | inl e ↦ rw (e1, e2, e3, e4, e) (wide c 3 s hs)
          | inr e5 ↦ rw (e1, e2, e3, e4, e5) (inl (refl, refl))
        ]
      ]
    ]
  ]
])

pub skip-All : (n : ℕ) (s : List ℕ) → All IsOctet s → All IsOctet (skip n s)
skip-All zero s h = h
skip-All (suc n) [] h = tt
skip-All (suc n) (c ∷ s) (_, hs) = skip-All n s hs

pub length-skip : (n : ℕ) (s : List ℕ) → n ≤ length s → length (skip n s) + n ≡ length s
length-skip zero s h = omega arith
length-skip (suc n) [] h = absurd (omega arith)
length-skip (suc n) (c ∷ s) h = omega (arith, length-skip n s (omega arith))

-- a string that has not ended has a code point, if any
pub code_points-positive :
    (c : ℕ) (s : List ℕ)
    → All IsOctet (c ∷ s)
    → (code_points 0 (c ∷ s) ≡ none) ⊎ ((n : ℕ) × (code_points 0 (c ∷ s) ≡ some (suc n)))
code_points-positive c s h = elim (utf8_width-Widens c s h) [
  | inl (_, p) ↦ inl p
  | inr (_, _, p) ↦ positive _ _ p
]
  where
    positive : (p q : Option ℕ) → p ≡ one_more q → (p ≡ none) ⊎ ((n : ℕ) × (p ≡ some (suc n)))
    positive p none e = inl e
    positive p (some n) e = inr (n, e)
