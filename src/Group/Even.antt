-- ===== src/Group/Even.antt =====
-- What `partition_groups_even` leaves in the array.
use mysql_seed.Prelude.{
  ℕ, zero, suc, ◌+◌, ◌-◌, ◌*◌, ◌/◌, ◌%◌, ◌^◌, ◌≤◌, ◌<◌, ◌≡◌, refl, sym, ap, ◌∙◌, List, [], ◌∷◌,
  ◌++◌, arith, length, set, replicate, length-append, length-replicate, sum, sum-append,
}
use mathlib.Core.List.{append_assoc}
use native.Mathlib.Nat.{zero-add, suc-add, mod-eq_of_lt, mod-lt, div-le_self, mod-add-div}
use mysql_seed.Group.{write_run, partition_groups_even}

write_run-shift :
    (n v x i : ℕ) (r : List ℕ)
    → write_run n v (x ∷ r) (suc i) ≡ (x ∷ (write_run n v r i).0, suc ((write_run n v r i).1))
unfolding write_run
write_run-shift zero v x i r = refl
write_run-shift (suc n) v x i r = write_run-shift n v x (suc i) (set r i v)

write_run-fill :
    (v : ℕ) (mid post : List ℕ)
    → write_run (length mid) v (mid ++ post) 0 ≡ (replicate (length mid) v ++ post, length mid)
unfolding write_run
write_run-fill v [] post = refl
write_run-fill v (x ∷ mid) post =
    write_run-shift (length mid) v v 0 (mid ++ post)
    ∙ ap (λ p. (v ∷ p.0, suc p.1)) (write_run-fill v mid post)

-- writes behind a prefix leave it alone
write_run-append :
    (n v : ℕ) (pre r : List ℕ) (i : ℕ) {j : ℕ}
    → j ≡ length pre + i
    → write_run n v (pre ++ r) j
      ≡ (pre ++ (write_run n v r i).0, length pre + (write_run n v r i).1)
write_run-append n v [] r i e = rw (e, zero-add i, zero-add ((write_run n v r i).1)) refl
write_run-append n v (x ∷ pre) r i e =
    rw (e, suc-add (length pre) i, suc-add (length pre) ((write_run n v r i).1))
      (write_run-shift n v x (length pre + i) (pre ++ r)
        ∙ ap (λ p. (x ∷ p.0, suc (p.1))) (write_run-append n v pre r i refl))

split : (n : ℕ) (xs : List ℕ) → n ≤ length xs → (e f : List ℕ) × (xs ≡ e ++ f) × (length e ≡ n)
split zero xs h = ([], xs, refl, refl)
split (suc n) [] h = absurd (omega arith)
split (suc n) (x ∷ xs) h =
    let (e, f, p, q) = split n xs (omega arith) in (x ∷ e, f, ap (x ∷◌) p, ap suc q)

-- the groups of a table of `rows` rows in `n` groups
abbrev pub even_groups : ℕ → ℕ → List ℕ
even_groups n rows = replicate (rows % n) (rows / n + 1) ++ replicate (n - rows % n) (rows / n)

-- the second loop is as long as the rest of the array, since its first turn is never one too many
stages :
    (array : List ℕ) (group count rows : ℕ)
    → 0 < count
    → rows + 1 < 2 ^ 64
    → let extra = write_run (rows % count) (rows / count + 1) array group in
      extra.1 ≡ group + rows % count
      → partition_groups_even array group count rows
        ≡ write_run (count - rows % count) (rows / count) extra.0 extra.1
unfolding partition_groups_even write_run
stages array group count rows h k e =
    let r = mod-lt rows h in
    let d = div-le_self rows count in
    let q : count - rows % count ≡ suc (count - suc (rows % count)) = omega arith in
    let q' : group + count - suc (group + rows % count) ≡ count - suc (rows % count) =
      omega arith in
    rw (mod-eq_of_lt {n = rows / count + 1} {m = 2 ^ 64} (omega arith), e, q, q') refl

fill_at :
    (v n i : ℕ) (pre e post : List ℕ)
    → length e ≡ n
    → i ≡ length pre
    → write_run n v (pre ++ (e ++ post)) i ≡ (pre ++ (replicate n v ++ post), length pre + n)
fill_at v n i pre e post q k =
    write_run-append n v pre (e ++ post) 0 (omega arith)
    ∙ rw (← q) (ap (λ p. (pre ++ p.0, length pre + p.1)) (write_run-fill v e post))

-- two runs, the second behind the first
fill_twice :
    (v w a b : ℕ) (pre e f post : List ℕ)
    → length e ≡ a
    → length f ≡ b
    → write_run b w (pre ++ (replicate a v ++ (f ++ post))) (length pre + a)
      ≡ (pre ++ (replicate a v ++ replicate b w ++ post), length pre + (a + b))
fill_twice v w a b pre e f post p q =
    let reps = replicate a v in
    let l : length (pre ++ reps) ≡ length pre + a =
      length-append pre reps ∙ ap (λ n. length pre + n) (length-replicate a v) in
    let m : length (pre ++ reps) + b ≡ length pre + (a + b) = omega (arith, l) in
    let second = fill_at w b (length pre + a) (pre ++ reps) f post q (sym l) in
    ap (λ x. write_run b w x (length pre + a)) (sym (append_assoc pre reps (f ++ post)))
    ∙ second
    ∙ cc (append_assoc pre reps (replicate b w ++ post), append_assoc reps (replicate b w) post, m)

partition_groups_even-fills :
    (pre mid post : List ℕ) (rows : ℕ)
    → 0 < length mid
    → rows + 1 < 2 ^ 64
    → partition_groups_even (pre ++ (mid ++ post)) (length pre) (length mid) rows
      ≡ (pre ++ (even_groups (length mid) rows ++ post), length pre + length mid)
partition_groups_even-fills pre mid post rows h k =
    let n = length mid in
    let a = rows % n in
    let v = rows / n + 1 in
    let lt = mod-lt rows h in
    let (e, f, p, q) = split a mid (omega arith) in
    let l : length e + length f ≡ n = sym (length-append e f) ∙ ap length (sym p) in
    let array : pre ++ (mid ++ post) ≡ pre ++ (e ++ (f ++ post)) =
      ap (λ m. pre ++ (m ++ post)) p ∙ ap (λ m. pre ++ m) (append_assoc e f post) in
    let first =
      ap (λ m. write_run a v m (length pre)) array
      ∙ fill_at v a (length pre) pre e (f ++ post) q refl in
    let total : length pre + (a + (n - a)) ≡ length pre + n = omega arith in
    stages (pre ++ (mid ++ post)) (length pre) n rows h k (ap (λ p. p.1) first)
    ∙ ap (λ p. write_run (n - a) (rows / n) p.0 p.1) first
    ∙ fill_twice v (rows / n) a (n - a) pre e f post q (omega arith)
    ∙ ap (λ i. (pre ++ (even_groups n rows ++ post), i)) total

shared : (a b d n rows : ℕ) → a + b ≡ n → a + n * d ≡ rows → a * (d + 1) + b * d ≡ rows
shared a b d n rows h k = grind arith

sum-replicate : (n v : ℕ) → sum (replicate n v) ≡ n * v
sum-replicate zero v = omega arith
sum-replicate (suc n) v = grind (arith, sum-replicate n v)

even_groups-share :
    (n rows : ℕ) → 0 < n → (sum (even_groups n rows) ≡ rows) × (length (even_groups n rows) ≡ n)
even_groups-share n rows h =
    let a = rows % n in
    let lt = mod-lt rows h in
    let s = sum-append (replicate a (rows / n + 1)) (replicate (n - a) (rows / n)) in
    let l = length-append (replicate a (rows / n + 1)) (replicate (n - a) (rows / n)) in
    let c : a + (n - a) ≡ n = omega arith in
    (
      s
          ∙ rw (sum-replicate a (rows / n + 1), sum-replicate (n - a) (rows / n))
              (shared a (n - a) (rows / n) n rows c (mod-add-div rows n)),
      l ∙ rw (length-replicate a (rows / n + 1), length-replicate (n - a) (rows / n)) c,
    )

-- For at least one group and a number of rows that is at least two below 2 ^ 64,
-- `partition_groups_even` fills its `group_count` places of the array with the even groups, leaves
-- what stands around them alone, and returns the place behind. There is one even group for each
-- place, and together they have all the rows.
pub partition_groups_even-share :
    (pre mid post : List ℕ) (rows : ℕ)
    → 0 < length mid
    → rows + 1 < 2 ^ 64
    → (partition_groups_even (pre ++ (mid ++ post)) (length pre) (length mid) rows
        ≡ (pre ++ (even_groups (length mid) rows ++ post), length pre + length mid))
      × (length (even_groups (length mid) rows) ≡ length mid)
      × (sum (even_groups (length mid) rows) ≡ rows)
partition_groups_even-share pre mid post rows h k =
    let g = even_groups-share (length mid) rows h in
    (partition_groups_even-fills pre mid post rows h k, g.1, g.0)
