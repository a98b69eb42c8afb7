-- ===== src/ThreadPool/Steps.antt =====
-- The steps of a worker and the invariant.
use mathlib.Core.Path.{subst}
use mysql_seed.Prelude.{ℕ, ◌≤◌, refl, sym, inl, inr, List, [], ◌∷◌, ◌++◌, arith, length}
use mysql_seed.TaskQueue.{Memory, TaskQueue, task_queue_remove, task_queue_push}
use mysql_seed.TaskQueue.Nodes.{Holds, Holds-SameOutside}
use mysql_seed.TaskQueue.Fifo.{task_queue_push-Pushed, task_queue_push_quiet-eq}
use mysql_seed.TaskQueue.Remove.{task_queue_remove-Taken}
use mysql_seed.TaskQueue.Transfer.{task_queue_pop_push-Moved, task_queue_pop_push-waits}
use mysql_seed.ThreadPool.{Place, idle, waiting, running, ran, removed, System, worker_step, popped}
use mysql_seed.ThreadPool.Count.{
  same_self, count-append, count-Fresh, count-Apart, count-split, count-between,
}
use mysql_seed.ThreadPool.Invariant.{
  Inv, At, to_call, in_active, in_hand, change, idle-Inv, run-Inv, xs-ys,
}

wake-Inv :
    {s : System} {xs ys zs : List ℕ} (ps qs : List Place)
    → Inv s xs ys zs
    → At s ps waiting qs
    → Inv (worker_step s ps waiting qs) xs ys zs
unfolding worker_step
wake-Inv ps qs i e = idle-Inv ps qs i waiting idle (inl (refl, refl)) e

-- A worker finds the backlog empty.
sleep-Inv :
    {s : System} {ys zs : List ℕ} (ps qs : List Place)
    → Inv s [] ys zs
    → At s ps idle qs
    → Inv (worker_step s ps idle qs) [] ys zs
unfolding worker_step popped
sleep-Inv {s} {ys} {zs} ps qs i e =
    subst (λ r. Inv (popped s ps qs r) [] ys zs)
      (sym (task_queue_pop_push-waits s.memory s.backlog s.active i.backlog))
      (idle-Inv ps qs i idle waiting (inr (refl, refl)) e)

-- A worker takes the node in front of the backlog.
pub take-Inv :
    {s : System} {ys zs : List ℕ} (ps qs : List Place) (x : ℕ) (xs : List ℕ)
    → Inv s (x ∷ xs) ys zs
    → At s ps idle qs
    → Inv (worker_step s ps idle qs) xs (ys ++ x ∷ []) zs
unfolding worker_step popped
take-Inv {s} {ys} {zs} ps qs x xs i e =
    let (memory', backlog', active', run, moved) =
      task_queue_pop_push-Moved s.memory s.backlog s.active x xs ys i.backlog i.active
        (xs-ys ps qs i) in
    let apart =
      count-Apart zs (x ∷ (xs ++ ys))
        (λ a. omega (arith, i.placed a, i.once a, count-append a xs ys)) in
    subst (λ r. Inv (popped s ps qs r) xs (ys ++ x ∷ []) zs) (sym run)
      (record {
        backlog = moved.first;
        active = moved.second;
        complete =
            Holds-SameOutside s.memory memory' s.complete zs (x ∷ (xs ++ ys)) moved.spared apart
              i.complete;
        working = λ a. omega (
          arith,
          i.working a,
          count-append a ys (x ∷ []),
          change ps qs i (in_active a) idle (running x) e,
        );
        placed = λ a. omega (
          arith,
          i.placed a,
          count-append a ys (x ∷ []),
          change ps qs i (in_hand a) idle (running x) e,
        );
        once = i.once;
        calls = λ a. omega (arith, i.calls a, change ps qs i (to_call a) idle (running x) e);
      })

-- A worker removes its node from the active ones.
finish-Inv :
    {s : System} {xs zs : List ℕ} (ps qs : List Place) (x : ℕ) (us vs : List ℕ)
    → Inv s xs (us ++ x ∷ vs) zs
    → At s ps (ran x) qs
    → Inv (worker_step s ps (ran x) qs) xs (us ++ vs) zs
unfolding worker_step
finish-Inv {s} {xs} {zs} ps qs x us vs i e =
    let taken = task_queue_remove-Taken s.memory s.active x us vs i.active in
    let memory' = (task_queue_remove s.memory s.active x).0 in
    record {
      backlog =
          Holds-SameOutside s.memory memory' s.backlog xs (us ++ vs) taken.spared
            (count-Apart xs (us ++ vs)
              (λ a. omega (arith, i.placed a, i.once a, count-between a us x vs)))
            i.backlog;
      active = taken.holds;
      complete =
          Holds-SameOutside s.memory memory' s.complete zs (us ++ vs) taken.spared
            (count-Apart zs (us ++ vs)
              (λ a. omega (arith, i.placed a, i.once a, count-between a us x vs)))
            i.complete;
      working = λ a. omega (
        arith,
        i.working a,
        count-between a us x vs,
        change ps qs i (in_active a) (ran x) (removed x) e,
      );
      placed = λ a. omega (
        arith,
        i.placed a,
        count-between a us x vs,
        change ps qs i (in_hand a) (ran x) (removed x) e,
      );
      once = i.once;
      calls = λ a. omega (arith, i.calls a, change ps qs i (to_call a) (ran x) (removed x) e);
    }

Holds-quiet :
    (memory : Memory) (queue : TaskQueue) (n : ℕ) (xs : List ℕ)
    → Holds memory queue xs
    → Holds memory (record queue { node_ready = n }) xs
Holds-quiet memory queue n xs h = record {
  head = h.head;
  last = h.last;
  linked = h.linked;
  distinct = h.distinct;
}

-- A worker pushes its node to the complete ones.
complete-Inv :
    {s : System} {xs ys zs : List ℕ} (ps qs : List Place) (x : ℕ)
    → Inv s xs ys zs
    → At s ps (removed x) qs
    → Inv (worker_step s ps (removed x) qs) xs ys (zs ++ x ∷ [])
unfolding worker_step
complete-Inv {s} {xs} {ys} {zs} ps qs x i e =
    let hand = λ (a : ℕ). change ps qs i (in_hand a) (removed x) idle e in
    let fresh = count-Fresh x zs (omega (arith, i.placed x, i.once x, hand x, same_self x)) in
    let pushed = task_queue_push-Pushed s.memory s.complete x zs i.complete fresh in
    let r = task_queue_push s.memory s.complete x in
    subst
      (λ (m : Memory × TaskQueue).
        Inv (record s { memory = m.0; complete = m.1; workers = ps ++ idle ∷ qs }) xs ys
          (zs ++ x ∷ []))
      (sym (task_queue_push_quiet-eq s.memory s.complete x))
      (record {
        backlog =
            Holds-SameOutside s.memory r.0 s.backlog xs (x ∷ zs) pushed.spared
              (count-Apart xs (x ∷ zs) (λ a. omega (arith, i.placed a, i.once a, hand a)))
              i.backlog;
        active =
            Holds-SameOutside s.memory r.0 s.active ys (x ∷ zs) pushed.spared
              (count-Apart ys (x ∷ zs) (λ a. omega (arith, i.placed a, i.once a, hand a))) i.active;
        complete = Holds-quiet r.0 r.1 s.complete.node_ready (zs ++ x ∷ []) pushed.holds;
        working = λ a. omega (arith, i.working a, change ps qs i (in_active a) (removed x) idle e);
        placed = λ a. omega (arith, i.placed a, count-append a zs (x ∷ []), hand a);
        once = i.once;
        calls = λ a. omega (arith, i.calls a, change ps qs i (to_call a) (removed x) idle e);
      })

-- A step of a worker keeps the invariant, whichever worker it is; it adds nothing to the backlog.
pub worker_step-Inv :
    {s : System} {xs ys zs : List ℕ} (ps : List Place) (p : Place) (qs : List Place)
    → Inv s xs ys zs
    → At s ps p qs
    → (xs' : List ℕ) × (ys' : List ℕ) × (zs' : List ℕ) × Inv (worker_step s ps p qs) xs' ys' zs'
      × (length xs' ≤ length xs)
worker_step-Inv {xs = []} {ys} {zs} ps idle qs i e = ([], ys, zs, sleep-Inv ps qs i e, omega arith)
worker_step-Inv {xs = x ∷ xs} {ys} {zs} ps idle qs i e =
    (xs, ys ++ x ∷ [], zs, take-Inv ps qs x xs i e, omega arith)
worker_step-Inv {xs} {ys} {zs} ps waiting qs i e = (xs, ys, zs, wake-Inv ps qs i e, omega arith)
worker_step-Inv {xs} {ys} {zs} ps (running node) qs i e =
    (xs, ys, zs, run-Inv ps qs i node e, omega arith)
worker_step-Inv {s} {xs} {ys} {zs} ps (ran node) qs i e =
    let active = change ps qs i (in_active node) (ran node) idle e in
    let (us, vs, split) =
      count-split node ys (omega (arith, i.working node, active, same_self node)) in
    (
      xs,
      us ++ vs,
      zs,
      finish-Inv ps qs node us vs (subst (λ l. Inv s xs l zs) split i) e,
      omega arith,
    )
worker_step-Inv {xs} {ys} {zs} ps (removed node) qs i e =
    (xs, ys, zs ++ node ∷ [], complete-Inv ps qs node i e, omega arith)
