-- ===== src/ThreadPool/Awake.antt =====
-- The workers that are awake, and the work that is left.
use mathlib.Core.Path.{subst}
use mysql_seed.Prelude.{
  ℕ, zero, suc, ◌+◌, ◌<◌, ◌≤◌, ◌≡◌, refl, sym, ◌⊎◌, inl, inr, true, false, List, [], ◌∷◌, ◌++◌,
  arith, length, length-append, length-replicate, replicate,
}
use mysql_seed.TaskQueue.{TaskQueue, TaskStore, task_queue_reload, task_queue_await_empty}
use mysql_seed.TaskQueue.Transfer.{task_queue_pop_push-waits, task_queue_pop_push-Moved}
use mysql_seed.ThreadPool.{
  Place, idle, waiting, running, ran, removed, System, popped, worker_step, thread_pool_init,
  thread_pool_reload, asleep, Signal, wakes, nobody, Signals, no_signal, signal, Reach, start, work,
  build, reload,
}
use mysql_seed.ThreadPool.Count.{total}
use mysql_seed.ThreadPool.Invariant.{Inv, xs-ys}
use mysql_seed.ThreadPool.Await.{Reach-Rows}

asleep-le : (ws : List Place) → total asleep ws ≤ length ws
unfolding total
asleep-le [] = omega arith
asleep-le (idle ∷ ws) = omega (arith, asleep-le ws)
asleep-le (waiting ∷ ws) = omega (arith, asleep-le ws)
asleep-le (running x ∷ ws) = omega (arith, asleep-le ws)
asleep-le (ran x ∷ ws) = omega (arith, asleep-le ws)
asleep-le (removed x ∷ ws) = omega (arith, asleep-le ws)

-- one worker that is not asleep
awake_one :
    (ps qs : List Place) (p : Place)
    → asleep p ≡ 0
    → total asleep (ps ++ p ∷ qs) < length (ps ++ p ∷ qs)
unfolding total
awake_one [] qs p h = omega (arith, asleep-le qs)
awake_one (idle ∷ ps) qs p h = omega (arith, awake_one ps qs p h)
awake_one (waiting ∷ ps) qs p h = omega (arith, awake_one ps qs p h)
awake_one (running x ∷ ps) qs p h = omega (arith, awake_one ps qs p h)
awake_one (ran x ∷ ps) qs p h = omega (arith, awake_one ps qs p h)
awake_one (removed x ∷ ps) qs p h = omega (arith, awake_one ps qs p h)

-- there are workers, and there is no work or one of them is awake
record Awake (s : System) : Type 0 where
  crew : 0 < length s.workers
  awake : (task_queue_await_empty s.backlog ≡ true) ⊎ (total asleep s.workers < length s.workers)

moved :
    (s : System) (ps qs : List Place) (p : Place)
    → s.workers ≡ ps ++ p ∷ qs
    → asleep p ≡ 0
    → Awake s
moved s ps qs p e h = record {
  crew = rw e (omega (arith, length-append ps (p ∷ qs)));
  awake = inr (rw e (awake_one ps qs p h));
}

idle-Awake :
    (s : System) (ps qs : List Place) (xs ys zs : List ℕ)
    → Inv s xs ys zs
    → Awake (worker_step s ps idle qs)
unfolding worker_step popped task_queue_await_empty
idle-Awake s ps qs [] ys zs i =
    subst (λ r. Awake (popped s ps qs r))
      (sym (task_queue_pop_push-waits s.memory s.backlog s.active i.backlog))
      (record {
        crew = omega (arith, length-append ps (waiting ∷ qs));
        awake = inl (rw i.backlog.head refl);
      })
idle-Awake s ps qs (x ∷ xs) ys zs i =
    let m =
      task_queue_pop_push-Moved s.memory s.backlog s.active x xs ys i.backlog i.active
        (xs-ys ps qs i) in
    subst (λ r. Awake (popped s ps qs r)) (sym m.3) (moved _ ps qs (running x) refl refl)

work-Awake :
    (s : System) (ps qs : List Place) (p : Place) (xs ys zs : List ℕ)
    → Inv s xs ys zs
    → Awake (worker_step s ps p qs)
unfolding worker_step
work-Awake s ps qs idle xs ys zs i = idle-Awake s ps qs xs ys zs i
work-Awake s ps qs waiting xs ys zs i = moved _ ps qs idle refl refl
work-Awake s ps qs (running x) xs ys zs i = moved _ ps qs (ran x) refl refl
work-Awake s ps qs (ran x) xs ys zs i = moved _ ps qs (removed x) refl refl
work-Awake s ps qs (removed x) xs ys zs i = moved _ ps qs idle refl refl

Signal-Awake :
    (ws vs : List Place)
    → 0 < length ws
    → Signal ws vs
    → (0 < length vs) × (total asleep vs < length vs)
Signal-Awake ws _ h (wakes ps qs e) =
    (omega (arith, length-append ps (idle ∷ qs)), awake_one ps qs idle refl)
Signal-Awake ws _ h (nobody n) = (h, omega arith)

Signals-Awake :
    (n : ℕ) (ws vs : List Place)
    → 0 < length ws
    → Signals (suc n) ws vs
    → (0 < length vs) × (total asleep vs < length vs)
Signals-Awake zero ws vs h (signal g no_signal) = Signal-Awake ws vs h g
Signals-Awake (suc n) ws vs h (signal {us} g gs) =
    Signals-Awake n us vs ((Signal-Awake ws us h g).0) gs

-- task_queue_reload sends a signal
reload-sent :
    (queue : TaskQueue) (store : TaskStore) (sent : ℕ)
    → (task_queue_reload queue store).node_ready ≡ queue.node_ready + sent
    → sent ≡ 1
unfolding task_queue_reload
reload-sent queue store sent e = omega (arith, e)

asleep-replicate : (n : ℕ) → total asleep (replicate n idle) ≡ 0
unfolding total
asleep-replicate zero = refl
asleep-replicate (suc n) = omega (arith, asleep-replicate n)

Reach-Awake : {s : System} → Reach s → Awake s
unfolding thread_pool_init thread_pool_reload
Reach-Awake (start memory store row n p h) = record {
  crew = omega (arith, length-replicate n idle);
  awake = inr (omega (arith, length-replicate n idle, asleep-replicate n));
}
Reach-Awake (work {s} ps p qs r e) =
    let i = Reach-Rows r in work-Awake s ps qs p i.xs i.ys i.zs i.inv
Reach-Awake (build memory r w) = let i = Reach-Awake r in record { crew = i.crew; awake = i.awake }
Reach-Awake (reload {s} store row sent workers' r e h d n g) =
    let one = subst (λ k. Signals k s.workers workers') (reload-sent s.backlog store sent n) g in
    let (crew, awake) = Signals-Awake 0 s.workers workers' (Reach-Awake r).crew one in
    record { crew = crew; awake = inr awake }

-- As long as the backlog of a reachable pool is not empty some worker is not asleep, although a
-- signal wakes up only one.
pub worker-awake :
    (s : System)
    → Reach s
    → task_queue_await_empty s.backlog ≡ false
    → total asleep s.workers < length s.workers
worker-awake s r e = elim ((Reach-Awake r).awake) [ inl h ↦ absurd (cc) | inr h ↦ h ]
