-- ===== src/TaskQueue/Writes.antt =====
-- Reading a node after the writes to its fields.
use mysql_seed.Prelude.{
  ℕ, ◌≡◌, refl, sym, ap, ◌≢◌, inl, inr, Option, ◌==◌, eq→==, ==→eq, ne→==, Bool-cases,
}
use mysql_seed.TaskQueue.{Memory, set_next, set_prev}

-- what the writes through a pointer change, and what they leave
module _ (memory : Memory) (a : ℕ) (v : Option ℕ) where
  pub next-set_next : (set_next memory a v a).next ≡ v
  unfolding set_next
  next-set_next = rw (eq→== a a refl) refl

  pub prev-set_prev : (set_prev memory a v a).prev ≡ v
  unfolding set_prev
  prev-set_prev = rw (eq→== a a refl) refl

  pub prev-set_next : (b : ℕ) → (set_next memory a v b).prev ≡ (memory b).prev
  unfolding set_next
  prev-set_next b = elim (Bool-cases (b == a)) [
    | inl e ↦ rw e (ap (λ x. (memory x).prev) (sym (==→eq b a e)))
    | inr e ↦ rw e refl
  ]

  pub next-set_prev : (b : ℕ) → (set_prev memory a v b).next ≡ (memory b).next
  unfolding set_prev
  next-set_prev b = elim (Bool-cases (b == a)) [
    | inl e ↦ rw e (ap (λ x. (memory x).next) (sym (==→eq b a e)))
    | inr e ↦ rw e refl
  ]

  pub task-set_next : (b : ℕ) → (set_next memory a v b).task ≡ (memory b).task
  unfolding set_next
  task-set_next b = elim (Bool-cases (b == a)) [
    | inl e ↦ rw e (ap (λ x. (memory x).task) (sym (==→eq b a e)))
    | inr e ↦ rw e refl
  ]

  pub task-set_prev : (b : ℕ) → (set_prev memory a v b).task ≡ (memory b).task
  unfolding set_prev
  task-set_prev b = elim (Bool-cases (b == a)) [
    | inl e ↦ rw e (ap (λ x. (memory x).task) (sym (==→eq b a e)))
    | inr e ↦ rw e refl
  ]

  pub set_next-other : (b : ℕ) → b ≢ a → set_next memory a v b ≡ memory b
  unfolding set_next
  set_next-other b h = rw (ne→== b a h) refl

  pub set_prev-other : (b : ℕ) → b ≢ a → set_prev memory a v b ≡ memory b
  unfolding set_prev
  set_prev-other b h = rw (ne→== b a h) refl

pub ruleset writes =
    (next-set_next, prev-set_prev, prev-set_next, next-set_prev, task-set_next, task-set_prev)
