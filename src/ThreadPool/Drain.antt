-- ===== src/ThreadPool/Drain.antt =====
-- The workers that are awake empty the backlog.
use mathlib.Core.Path.{subst}
use mysql_seed.Prelude.{
  ℕ, zero, suc, ◌+◌, ◌*◌, ◌<◌, ◌≡◌, refl, sym, ap, inl, inr, true, List, [], ◌∷◌, ◌++◌, arith,
  length, Bool-cases,
}
use mysql_seed.TaskQueue.{task_queue_await_empty}
use mysql_seed.TaskQueue.Transfer.{task_queue_pop_push-Moved}
use mysql_seed.ThreadPool.{
  Place, idle, waiting, running, ran, removed, System, popped, worker_step, asleep, Reach,
}
use mysql_seed.ThreadPool.Count.{total}
use mysql_seed.ThreadPool.Invariant.{Inv, At, xs-ys}
use mysql_seed.ThreadPool.Steps.{take-Inv, worker_step-Inv}
use mysql_seed.ThreadPool.Await.{Reach-Rows}
use mysql_seed.ThreadPool.Awake.{worker-awake}

-- steps of workers that do not wait: none of them is woken up
pub data Runs (t : System) : System → Type 0 where
  stop : Runs t t
  turn :
      {s : System} (ps : List Place) (p : Place) (qs : List Place)
      → s.workers ≡ ps ++ p ∷ qs
      → asleep p ≡ 0
      → Runs t (worker_step s ps p qs)
      → Runs t s

-- the pool comes to an empty backlog in this way
abbrev pub Drains : System → Type 0
Drains s = (t : System) × Runs t s × (task_queue_await_empty t.backlog ≡ true)

-- the steps up to the next node
abbrev left : Place → ℕ
left idle = 0
left waiting = 0
left (running x) = 3
left (ran x) = 2
left (removed x) = 1

empty_row : (s : System) (ys zs : List ℕ) → Inv s [] ys zs → task_queue_await_empty s.backlog ≡ true
unfolding task_queue_await_empty
empty_row s ys zs i = rw i.backlog.head refl

take-At :
    (s : System) (ps qs : List Place) (x : ℕ) (xs ys zs : List ℕ)
    → Inv s (x ∷ xs) ys zs
    → At (worker_step s ps idle qs) ps (running x) qs
unfolding worker_step popped
take-At s ps qs x xs ys zs i =
    let m =
      task_queue_pop_push-Moved s.memory s.backlog s.active x xs ys i.backlog i.active
        (xs-ys ps qs i) in
    subst (λ r. (popped s ps qs r).workers ≡ ps ++ running x ∷ qs) (sym m.3) refl

busy-At :
    (s : System) (ps qs : List Place) (x : ℕ)
    → At (worker_step s ps (running x) qs) ps (ran x) qs
      × At (worker_step s ps (ran x) qs) ps (removed x) qs
      × At (worker_step s ps (removed x) qs) ps idle qs
unfolding worker_step
busy-At s ps qs x = (refl, refl, refl)

after :
    {s : System} (ps : List Place) (p : Place) (qs : List Place)
    → At s ps p qs
    → asleep p ≡ 0
    → Drains (worker_step s ps p qs)
    → Drains s
after ps p qs e h (t, r, d) = (t, turn ps p qs e h r, d)

-- one worker by itself
drain :
    (n : ℕ) (s : System) (ps : List Place) (p : Place) (qs : List Place) (xs ys zs : List ℕ)
    → Inv s xs ys zs
    → At s ps p qs
    → asleep p ≡ 0
    → 4 * length xs + left p < n
    → Drains s
drain zero s ps p qs xs ys zs i e h l = absurd (omega arith)
drain (suc n) s ps p qs [] ys zs i e h l = (s, stop, empty_row s ys zs i)
drain (suc n) s ps waiting qs (x ∷ xs) ys zs i e h l = absurd (omega (arith, h))
drain (suc n) s ps idle qs (x ∷ xs) ys zs i e h l = after ps idle qs e h (
    drain n _ ps (running x) qs xs (ys ++ x ∷ []) zs (take-Inv ps qs x xs i e)
      (take-At s ps qs x xs ys zs i) refl (omega arith))
drain (suc n) s ps (running y) qs (x ∷ xs) ys zs i e h l =
    let (xs', ys', zs', i', short) = worker_step-Inv ps (running y) qs i e in
    after ps (running y) qs e h
      (drain n _ ps (ran y) qs xs' ys' zs' i' (busy-At s ps qs y).0 refl (omega (arith, short)))
drain (suc n) s ps (ran y) qs (x ∷ xs) ys zs i e h l =
    let (xs', ys', zs', i', short) = worker_step-Inv ps (ran y) qs i e in
    after ps (ran y) qs e h
      (drain n _ ps (removed y) qs xs' ys' zs' i' (busy-At s ps qs y).1 refl (omega (arith, short)))
drain (suc n) s ps (removed y) qs (x ∷ xs) ys zs i e h l =
    let (xs', ys', zs', i', short) = worker_step-Inv ps (removed y) qs i e in
    after ps (removed y) qs e h
      (drain n _ ps idle qs xs' ys' zs' i' (busy-At s ps qs y).2 refl (omega (arith, short)))

-- a worker that is awake
abbrev Found : List Place → Type 0
Found ws =
    (ps : List Place) × (p : Place) × (qs : List Place) × (ws ≡ ps ++ p ∷ qs) × (asleep p ≡ 0)

find_awake : (ws : List Place) → total asleep ws < length ws → Found ws
unfolding total
find_awake [] h = absurd (omega arith)
find_awake (idle ∷ ws) h = ([], idle, ws, refl, refl)
find_awake (running x ∷ ws) h = ([], running x, ws, refl, refl)
find_awake (ran x ∷ ws) h = ([], ran x, ws, refl, refl)
find_awake (removed x ∷ ws) h = ([], removed x, ws, refl, refl)
find_awake (waiting ∷ ws) h =
    let (ps, p, qs, e, k) = find_awake ws (omega (arith, h)) in
    (waiting ∷ ps, p, qs, ap (λ r. waiting ∷ r) e, k)

-- From every reachable pool there are steps of workers that do not wait, so without a further
-- signal or a spurious wake-up, that lead to an empty backlog (`Drains`): whatever the workers and
-- the main thread did before, the signals that were sent, of which each wakes up only one worker,
-- are enough for all nodes of the backlog to be taken.
pub Reach-Drains : (s : System) → Reach s → Drains s
Reach-Drains s r = elim (Bool-cases (task_queue_await_empty s.backlog)) [
  | inl e ↦ (s, stop, e)
  | inr e ↦
      let (ps, p, qs, at, h) = find_awake s.workers (worker-awake s r e) in
      let i = Reach-Rows r in
      drain (suc (4 * length i.xs + left p)) s ps p qs i.xs i.ys i.zs i.inv at h (omega arith)
]
