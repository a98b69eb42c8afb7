-- ===== src/ThreadPool/Await.antt =====
-- What the main thread may rely on.
use mathlib.Core.Path.{subst}
use mysql_seed.Prelude.{
  ℕ, zero, suc, ◌+◌, ◌<◌, ◌≤◌, ◌≡◌, refl, sym, ap, inl, inr, true, none, List, [], ◌∷◌, arith, ◌==◌,
  ==→eq, Bool-cases, length, replicate,
}
use mysql_seed.TaskQueue.{
  Memory, TaskQueue, TaskStore, task_queue_await_empty, task_queue_init_store,
  task_queue_init_empty, task_queue_reload,
}
use mysql_seed.TaskQueue.Nodes.{Distinct, Holds, Linked-agree}
use mysql_seed.Cells.Carry.{All}
use mysql_seed.ThreadPool.{
  Place, idle, waiting, running, ran, removed, System, worker_step, thread_pool_init,
  thread_pool_reload, Signal, wakes, nobody, Signals, no_signal, signal, Works, here, next, Reach,
  start, work, build, reload,
}
use mysql_seed.ThreadPool.Count.{same_self, count, count-append, Fresh-count, total, total-exchange}
use mysql_seed.ThreadPool.Invariant.{Inv, to_call, in_active, in_hand}
use mysql_seed.ThreadPool.Steps.{worker_step-Inv}

-- a queue at which the main thread does not wait has an empty row
await-empty :
    (memory : Memory) (queue : TaskQueue) (xs : List ℕ)
    → Holds memory queue xs
    → task_queue_await_empty queue ≡ true
    → xs ≡ []
unfolding task_queue_await_empty
await-empty memory queue [] h e = refl
await-empty memory queue (x ∷ xs) h e = ground (arith, h.head)

total-replicate : (f : Place → ℕ) (n : ℕ) → f idle ≡ 0 → total f (replicate n idle) ≡ 0
unfolding total
total-replicate f zero h = refl
total-replicate f (suc n) h = omega (arith, total-replicate f n h)

total-Signal :
    (f : Place → ℕ) (ws vs : List Place)
    → f idle ≡ 0
    → f waiting ≡ 0
    → Signal ws vs
    → total f vs ≡ total f ws
total-Signal f ws _ h k (wakes ps qs e) = omega (arith, total-exchange f ws ps waiting idle qs e)
total-Signal f ws _ h k (nobody n) = refl

total-Signals :
    (f : Place → ℕ) (n : ℕ) (ws vs : List Place)
    → f idle ≡ 0
    → f waiting ≡ 0
    → Signals n ws vs
    → total f vs ≡ total f ws
total-Signals f zero ws _ h k no_signal = refl
total-Signals f (suc n) ws vs h k (signal {us} g gs) =
    omega (arith, total-Signals f n us vs h k gs, total-Signal f ws us h k g)

Distinct-count : (xs : List ℕ) → Distinct xs → (a : ℕ) → count a xs ≤ 1
Distinct-count [] d a = omega arith
Distinct-count (x ∷ xs) d a = elim (Bool-cases (a == x)) [
  | inl e ↦ rw e (omega (arith, Fresh-count x xs d.0, ap (λ b. count b xs) (==→eq a x e)))
  | inr e ↦ rw e (omega (arith, Distinct-count xs d.1 a))
]

-- the rows of a pool under other writes
Holds-build :
    (memory memory' : Memory) (queue : TaskQueue) (xs : List ℕ)
    → ((a : ℕ) → 0 < count a xs → memory' a ≡ memory a)
    → Holds memory queue xs
    → Holds memory' queue xs
Holds-build memory memory' queue xs w h = record {
  head = h.head;
  last = h.last;
  linked = Linked-agree memory memory' none none xs (agree xs w) h.linked;
  distinct = h.distinct;
}
  where
    agree :
        (ys : List ℕ)
        → ((a : ℕ) → 0 < count a ys → memory' a ≡ memory a)
        → All (λ x. memory' x ≡ memory x) ys
    agree [] g = tt
    agree (y ∷ ys) g = (g y (omega (arith, same_self y)), agree ys (λ a p. g a (omega arith)))

pub record Rows (s : System) : Type 0 where
  pub xs : List ℕ
  pub ys : List ℕ
  pub zs : List ℕ
  pub inv : Inv s xs ys zs

Holds-nothing : (memory : Memory) → Holds memory task_queue_init_empty []
unfolding task_queue_init_empty
Holds-nothing memory = record { head = refl; last = refl; linked = tt; distinct = tt }

start-Inv :
    (memory : Memory) (store : TaskStore) (row : List ℕ) (n : ℕ)
    → Holds memory (task_queue_init_store store) row
    → Inv (thread_pool_init memory store row n) row [] []
unfolding thread_pool_init
start-Inv memory store row n h = record {
  backlog = h;
  active = Holds-nothing memory;
  complete = Holds-nothing memory;
  working = λ a. sym (total-replicate (in_active a) n refl);
  placed = λ a. omega (arith, total-replicate (in_hand a) n refl);
  once = Distinct-count row h.distinct;
  calls = λ a. omega (arith, total-replicate (to_call a) n refl);
}

build-Inv :
    {s : System} {xs ys zs : List ℕ} (memory : Memory)
    → Inv s xs ys zs
    → ((a : ℕ) → 0 < count a s.loaded → memory a ≡ s.memory a)
    → Inv (record s { memory = memory }) xs ys zs
build-Inv {s} {xs} {ys} {zs} memory i w = record {
  backlog =
      Holds-build s.memory memory s.backlog xs (λ a p. w a (omega (arith, i.placed a))) i.backlog;
  active =
      Holds-build s.memory memory s.active ys (λ a p. w a (omega (arith, i.placed a))) i.active;
  complete =
      Holds-build s.memory memory s.complete zs (λ a p. w a (omega (arith, i.placed a))) i.complete;
  working = i.working;
  placed = i.placed;
  once = i.once;
  calls = i.calls;
}

reload-Inv :
    {s : System} {ys zs : List ℕ} (store : TaskStore) (row : List ℕ) (sent : ℕ)
    (workers' : List Place)
    → Inv s [] ys zs
    → Holds s.memory (task_queue_init_store store) row
    → ((a : ℕ) → count a row + count a s.loaded ≤ 1)
    → Signals sent s.workers workers'
    → Inv (thread_pool_reload s store row workers') row ys zs
unfolding thread_pool_reload task_queue_reload task_queue_init_store
reload-Inv {s} store row sent workers' i h d g = record {
  backlog = record { head = h.head; last = h.last; linked = h.linked; distinct = h.distinct };
  active = i.active;
  complete = i.complete;
  working = λ a.
      omega (arith, i.working a, total-Signals (in_active a) sent s.workers workers' refl refl g);
  placed = λ a. omega (
    arith,
    i.placed a,
    count-append a row s.loaded,
    total-Signals (in_hand a) sent s.workers workers' refl refl g,
  );
  once = λ a. omega (arith, d a, count-append a row s.loaded);
  calls = λ a. omega (
    arith,
    i.calls a,
    count-append a row s.loaded,
    total-Signals (to_call a) sent s.workers workers' refl refl g,
  );
}

-- In every reachable pool the three queues hold rows of nodes, each node that was loaded is in
-- exactly one of these rows or in the hand of a worker between two of them, the active nodes are
-- those that a worker works on, and the task of each node either has not been called yet, while the
-- node is in the backlog or with a worker about to call it, or has been called once (`Inv`).
pub Reach-Rows : {s : System} → Reach s → Rows s
Reach-Rows (start memory store row n p h) = record {
  xs = row;
  ys = [];
  zs = [];
  inv = start-Inv memory store row n h;
}
Reach-Rows (work ps p qs r e) =
    let i = Reach-Rows r in
    let (xs, ys, zs, inv, _) = worker_step-Inv ps p qs i.inv e in
    record { xs = xs; ys = ys; zs = zs; inv = inv }
Reach-Rows (build memory r w) =
    let i = Reach-Rows r in
    record { xs = i.xs; ys = i.ys; zs = i.zs; inv = build-Inv memory i.inv w }
Reach-Rows (reload {s} store row sent workers' r e h d n g) =
    let i = Reach-Rows r in
    let inv =
      subst (λ xs. Inv s xs i.ys i.zs) (await-empty s.memory s.backlog i.xs i.inv.backlog e)
        i.inv in
    record { xs = row; ys = i.ys; zs = i.zs; inv = reload-Inv store row sent workers' inv h d g }

-- while only the workers move, an empty backlog stays empty
Works-Inv :
    {s t : System} (ys zs : List ℕ)
    → Inv s [] ys zs
    → Works s t
    → (ys' : List ℕ) × (zs' : List ℕ) × Inv t [] ys' zs'
Works-Inv ys zs i here = (ys, zs, i)
Works-Inv ys zs i (next {t} ps p qs w e) =
    let (us, vs, inv) = Works-Inv ys zs i w in
    let (xs', ys', zs', inv', short) = worker_step-Inv ps p qs inv e in
    (ys', zs', subst (λ xs. Inv (worker_step t ps p qs) xs ys' zs') (no_longer xs' short) inv')
  where
    no_longer : (xs : List ℕ) → length xs ≤ 0 → xs ≡ []
    no_longer [] h = refl
    no_longer (_ ∷ _) h = absurd (omega arith)

to_call-le : (a : ℕ) (ps : List Place) → total (to_call a) ps ≤ total (in_active a) ps
unfolding total
to_call-le a [] = omega arith
to_call-le a (idle ∷ ps) = omega (arith, to_call-le a ps)
to_call-le a (waiting ∷ ps) = omega (arith, to_call-le a ps)
to_call-le a (running node ∷ ps) = omega (arith, to_call-le a ps)
to_call-le a (ran node ∷ ps) = omega (arith, to_call-le a ps)
to_call-le a (removed node ∷ ps) = omega (arith, to_call-le a ps)

-- When the main thread finds the backlog of a reachable pool empty and later, when only workers
-- have moved, its active queue, as `thread_pool_await` does before it returns, then the task of
-- each node that was ever loaded has been called exactly once.
pub thread_pool_await-called :
    (s t : System)
    → Reach s
    → task_queue_await_empty s.backlog ≡ true
    → Works s t
    → task_queue_await_empty t.active ≡ true
    → (a : ℕ) → count a t.called ≡ count a t.loaded
thread_pool_await-called s t r e w f a =
    let i = Reach-Rows r in
    let inv =
      subst (λ xs. Inv s xs i.ys i.zs) (await-empty s.memory s.backlog i.xs i.inv.backlog e)
        i.inv in
    let (ys, zs, inv') = Works-Inv i.ys i.zs inv w in
    let none_active = ap (count a) (await-empty t.memory t.active ys inv'.active f) in
    omega (arith, inv'.calls a, inv'.working a, none_active, to_call-le a t.workers)
