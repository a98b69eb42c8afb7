-- ===== src/Generate/Name/Accept.antt =====
-- Which names and texts are accepted.
use mysql_seed.Prelude.{
  ℕ, zero, suc, ◌+◌, ◌<◌, ◌≡◌, refl, inl, inr, Bool, false, ◌&&◌, Option, none, some, List, [], ◌∷◌,
  arith, leb, ◌==◌, if◌then◌else◌, length, ap, ◌∙◌, ne→==,
}
use mysql_seed.Cells.Carry.{All}
use mysql_seed.Utf8.{utf8_width, skip}
use mysql_seed.Utf8.Automaton.{
  code_points, one_more, IsOctet, utf8_width-Widens, skip-All, length-skip, code_points-positive,
}
use mysql_seed.Decimal.Parse.{is_end}
use mysql_seed.Generate.Name.{
  NameResult, named, name_empty, name_invalid, name_long, name_loop, parse_db_name, parse_tbl_name,
  parse_col_name, text_loop, parse_base_string, parse_fixed_string, with_nul,
}

abbrev pub accepted : NameResult → Option ℕ
accepted (named length) = some length
accepted _ = none

-- a number of code points between the bounds
abbrev pub between : (least most : ℕ) → Option ℕ → Bool
between least most none = false
between least most (some n) = leb least n && leb n most

code_points-end : code_points 0 [] ≡ some 0
unfolding code_points
code_points-end = refl

within-bounds :
    (n rem : ℕ) → between 1 (suc rem) (some (suc (suc n))) ≡ between 1 rem (some (suc n))
within-bounds n rem = ground arith

module _ (rem at w l : ℕ) (more : NameResult) where
  -- a round of the loop of the names
  abbrev name_round : List ℕ → NameResult
  name_round rest =
      if w == 0
      then name_invalid
      else if is_end rest
      then named (at + w)
      else if rem == 0
      then name_long
      else more

  name_step :
      (rest : List ℕ)
      → 0 < w
      → length rest + w ≡ l
      → All IsOctet rest
      → (is_end rest ≡ false
          → accepted more
            ≡ (if between 1 rem (code_points 0 rest) then some (at + w + length rest) else none))
      → accepted (name_round rest)
        ≡ (if between 1 (suc rem) (one_more (code_points 0 rest)) then some (at + l) else none)
  name_step [] p e h f = rw (ne→== w 0 (omega arith), code_points-end) (ground arith)
  name_step (d ∷ t) p e h f = elim (code_points-positive d t h) [
    | inl q ↦ let f' = rw q at (f refl) in rw (ne→== w 0 (omega arith), q) (ground arith)
    | inr (n, q) ↦ let f' = rw q at (f refl) in rw (ne→== w 0 (omega arith), q) (ground arith)
  ]

name_loop_lem :
    (rem at : ℕ) (s : List ℕ)
    → is_end s ≡ false
    → All IsOctet s
    → accepted (name_loop rem at s)
      ≡ (if between 1 rem (code_points 0 s) then some (at + length s) else none)
unfolding name_loop
name_loop_lem rem at [] n h = cc
name_loop_lem zero at (c ∷ s) n h = elim (code_points-positive c s h) [
  | inl q ↦ rw q refl
  | inr (n, q) ↦ rw q (ground arith)
]
name_loop_lem (suc rem) at (c ∷ s) n h = elim (utf8_width-Widens c s h) [
  | inl (w, q) ↦ rw (w, q) refl
  | inr (p, l, q) ↦ rw q (
      name_step rem at _ (length (c ∷ s)) _ (skip (utf8_width (c ∷ s)) (c ∷ s)) p
        (length-skip _ (c ∷ s) l) (skip-All _ (c ∷ s) h)
        (λ e. name_loop_lem rem _ _ e (skip-All _ (c ∷ s) h)))
]

fewer :
    (rem at w l k : ℕ) (points : Option ℕ) (more : NameResult)
    → k + w ≡ l
    → 0 < w
    → accepted more ≡ (if between 0 rem points then some (at + w + k) else none)
    → accepted (if w == 0 then name_invalid else if suc rem == 0 then name_long else more)
      ≡ (if between 0 (suc rem) (one_more points) then some (at + l) else none)
fewer rem at w l k none more e p f = ground arith
fewer rem at w l k (some n) more e p f = ground arith

-- One code point fewer than the counter that the loop starts with.
text_loop_lem :
    (rem at : ℕ) (s : List ℕ)
    → All IsOctet s
    → accepted (text_loop (suc rem) at s)
      ≡ (if between 0 rem (code_points 0 s) then some (at + length s) else none)
unfolding text_loop
text_loop_lem rem at [] h = rw (code_points-end) (ground arith)
text_loop_lem zero at (c ∷ s) h = elim (code_points-positive c s h) [
  | inl q ↦ rw q (ground arith)
  | inr (n, q) ↦ rw q (ground arith)
]
text_loop_lem (suc rem) at (c ∷ s) h = elim (utf8_width-Widens c s h) [
  | inl (w, q) ↦ rw (w, q) refl
  | inr (p, l, q) ↦
      let behind = skip (utf8_width (c ∷ s)) (c ∷ s) in
      rw q (
        fewer rem at _ (length (c ∷ s)) _ (code_points 0 behind) _ (length-skip _ (c ∷ s) l) p
          (text_loop_lem rem _ behind (skip-All _ (c ∷ s) h)))
]

from_start :
    (s : List ℕ) (b : Bool) (r : NameResult)
    → accepted r ≡ (if b then some (0 + length s) else none)
    → accepted r ≡ (if b then some (length s) else none)
from_start s b r e = e ∙ ap (λ n. if b then some n else none) (omega arith)

accepted-with_nul :
    (r : NameResult) (b : Bool) (n : ℕ)
    → accepted r ≡ (if b then some n else none)
    → accepted (with_nul r) ≡ (if b then some (n + 1) else none)
accepted-with_nul (named l) b n e = ground arith
accepted-with_nul name_empty b n e = ground arith
accepted-with_nul name_invalid b n e = ground arith
accepted-with_nul name_long b n e = ground arith

-- For every string of octets, `parse_db_name`, `parse_tbl_name` and `parse_col_name` accept it,
-- with its length in bytes, where it has 1 to 63 code points of the forms of UTF-8 (`code_points`,
-- an automaton that reads one octet at a time), and refuse it otherwise.
pub names_accepted :
    (arg : List ℕ)
    → All IsOctet arg
    → let spec = if between 1 63 (code_points 0 arg) then some (length arg) else none in
      (accepted (parse_db_name arg) ≡ spec)
      × (accepted (parse_tbl_name arg) ≡ spec)
      × (accepted (parse_col_name arg) ≡ spec)
unfolding parse_db_name parse_tbl_name parse_col_name
names_accepted [] h = rw (code_points-end) (refl, refl, refl)
names_accepted (c ∷ s) h =
    let e =
      from_start (c ∷ s) (between 1 63 (code_points 0 (c ∷ s))) _
        (name_loop_lem 63 0 (c ∷ s) refl h) in
    (e, e, e)

-- For every string of octets, `parse_base_string` accepts it, with its length, where it has at most
-- 246 code points of the forms of UTF-8, and `parse_fixed_string`, with its length and the NUL,
-- where it has at most 254; they refuse it otherwise.
pub texts_accepted :
    (arg : List ℕ)
    → All IsOctet arg
    → (accepted (parse_base_string arg)
        ≡ (if between 0 246 (code_points 0 arg) then some (length arg) else none))
      × (accepted (parse_fixed_string arg)
          ≡ (if between 0 254 (code_points 0 arg) then some (length arg + 1) else none))
unfolding parse_base_string parse_fixed_string
texts_accepted arg h =
    let fits = λ (n : ℕ). between 0 n (code_points 0 arg) in
    (
      from_start arg (fits 246) _ (text_loop_lem 246 0 arg h),
      accepted-with_nul _ (fits 254) (length arg)
          (from_start arg (fits 254) _ (text_loop_lem 254 0 arg h)),
    )
