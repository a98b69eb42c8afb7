-- ===== src/ThreadPool/Invariant.antt =====
-- What holds of a pool however its workers take turns.
use mysql_seed.Prelude.{ℕ, ◌+◌, ◌≤◌, ◌≡◌, ◌⊎◌, List, ◌∷◌, ◌++◌, arith}
use mysql_seed.TaskQueue.Nodes.{Apart, Holds}
use mysql_seed.ThreadPool.{Place, idle, waiting, running, ran, removed, System, worker_step}
use mysql_seed.ThreadPool.Count.{same, count, count-Apart, total, total-exchange}

-- what a worker in a place has of a node
abbrev pub to_call : ℕ → Place → ℕ
to_call x (running y) = same x y
to_call x _ = 0

abbrev pub in_active : ℕ → Place → ℕ
in_active x (running y) = same x y
in_active x (ran y) = same x y
in_active x _ = 0

abbrev pub in_hand : ℕ → Place → ℕ
in_hand x (removed y) = same x y
in_hand x _ = 0

-- Each node that was loaded is in one place, and its task is called at most once. The rows are
-- those of the backlog, of the active nodes and of the complete ones.
pub record Inv (s : System) (xs ys zs : List ℕ) : Type 0 where
  pub backlog : Holds s.memory s.backlog xs
  pub active : Holds s.memory s.active ys
  pub complete : Holds s.memory s.complete zs
  pub working : (a : ℕ) → count a ys ≡ total (in_active a) s.workers
  pub placed :
      (a : ℕ)
      → count a xs + count a ys + total (in_hand a) s.workers + count a zs ≡ count a s.loaded
  pub once : (a : ℕ) → count a s.loaded ≤ 1
  pub calls :
      (a : ℕ) → count a xs + total (to_call a) s.workers + count a s.called ≡ count a s.loaded

-- the worker that moves stands between two rows of others
abbrev pub At : System → List Place → Place → List Place → Type 0
At s ps p qs = s.workers ≡ ps ++ p ∷ qs

module _ {s : System} {xs ys zs : List ℕ} (ps qs : List Place) (i : Inv s xs ys zs) where
  open i use {backlog, active, complete, working, placed, once, calls}

  pub change :
      (f : Place → ℕ) (p p' : Place)
      → At s ps p qs
      → total f (ps ++ p' ∷ qs) + f p ≡ total f s.workers + f p'
  change f p p' e = total-exchange f s.workers ps p p' qs e

  -- a worker that wakes up, or goes to sleep at an empty backlog
  pub idle-Inv :
      (p p' : Place)
      → (p ≡ waiting) × (p' ≡ idle) ⊎ (p ≡ idle) × (p' ≡ waiting)
      → At s ps p qs
      → Inv (record s { workers = ps ++ p' ∷ qs }) xs ys zs
  idle-Inv p p' h e = record {
    backlog = backlog;
    active = active;
    complete = complete;
    working = λ a. ground (arith, working a, change (in_active a) p p' e);
    placed = λ a. ground (arith, placed a, change (in_hand a) p p' e);
    once = once;
    calls = λ a. ground (arith, calls a, change (to_call a) p p' e);
  }

  pub run-Inv :
      (node : ℕ) → At s ps (running node) qs → Inv (worker_step s ps (running node) qs) xs ys zs
  unfolding worker_step
  run-Inv node e = record {
    backlog = backlog;
    active = active;
    complete = complete;
    working = λ a. omega (arith, working a, change (in_active a) (running node) (ran node) e);
    placed = λ a. omega (arith, placed a, change (in_hand a) (running node) (ran node) e);
    once = once;
    calls = λ a. omega (arith, calls a, change (to_call a) (running node) (ran node) e);
  }

  -- rows that have no node in common
  pub xs-ys : Apart xs ys
  xs-ys = count-Apart xs ys (λ a. omega (arith, placed a, once a))

  xs-zs : Apart xs zs
  xs-zs = count-Apart xs zs (λ a. omega (arith, placed a, once a))

  ys-zs : Apart ys zs
  ys-zs = count-Apart ys zs (λ a. omega (arith, placed a, once a))
