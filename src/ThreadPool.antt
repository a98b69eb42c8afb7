-- ===== src/ThreadPool.antt =====
-- thread/thread_pool.h: the workers of a pool over its three queues of tasks. What a worker does is
-- a step of the system each time it gives up the lock of a queue, and around the call of a task;
-- worker_process_tasks is the round of these steps. A task is a call that the queues do not see.
-- The main thread waits for the pool (thread_pool_await) and loads it again (thread_pool_reload).
pub mod Count
pub mod Invariant
pub mod Steps
pub mod Await
pub mod Awake
pub mod Drain
use mysql_seed.Prelude.{
  ℕ, zero, suc, ◌+◌, ◌<◌, ◌≤◌, ◌≡◌, Bool, true, false, Option, none, some, List, [], ◌∷◌, ◌++◌,
  replicate,
}
use mysql_seed.TaskQueue.{
  Memory, TaskQueue, TaskStore, task_queue_pop_push, task_queue_remove, task_queue_push_quiet,
  task_queue_reload, task_queue_init_store, task_queue_init_empty, task_queue_await_empty,
}
use mysql_seed.TaskQueue.Nodes.{Holds}
use mysql_seed.ThreadPool.Count.{count, total}

-- Where a worker is in worker_process_tasks; a worker waits inside of the pop.
pub data Place : Type 0 where
  idle : Place
  waiting : Place
  running : ℕ → Place
  ran : ℕ → Place
  removed : ℕ → Place

-- struct TaskBuffer and the workers, with the nodes that were loaded and those whose task has been
-- called
pub record System : Type 0 where
  pub memory : Memory
  pub backlog : TaskQueue
  pub active : TaskQueue
  pub complete : TaskQueue
  pub workers : List Place
  pub loaded : List ℕ
  pub called : List ℕ

-- after task_queue_pop_push of the worker between `ws` and `vs`
popped : System → List Place → List Place → Option (ℕ × Memory × TaskQueue × TaskQueue) → System
popped s ws vs none = record s { workers = ws ++ waiting ∷ vs }
popped s ws vs (some (node, memory', backlog', active')) = record s {
  memory = memory';
  backlog = backlog';
  active = active';
  workers = ws ++ running node ∷ vs;
}

-- The next step of the worker between `ws` and `vs`.
unfoldable pub worker_step : System → List Place → Place → List Place → System
unfolding popped
worker_step s ws idle vs = popped s ws vs (task_queue_pop_push s.memory s.backlog s.active)
worker_step s ws waiting vs = record s { workers = ws ++ idle ∷ vs }
worker_step s ws (running node) vs = record s {
  workers = ws ++ ran node ∷ vs;
  called = node ∷ s.called;
}
worker_step s ws (ran node) vs =
    let (memory', active') = task_queue_remove s.memory s.active node in
    record s { memory = memory'; active = active'; workers = ws ++ removed node ∷ vs }
worker_step s ws (removed node) vs =
    let (memory', complete') = task_queue_push_quiet s.memory s.complete node in
    record s { memory = memory'; complete = complete'; workers = ws ++ idle ∷ vs }

-- thread_pool_init with the row of a store, and workers that have just been started
unfoldable pub thread_pool_init : Memory → TaskStore → List ℕ → ℕ → System
thread_pool_init memory store row count_workers = record {
  memory = memory;
  backlog = task_queue_init_store store;
  active = task_queue_init_empty;
  complete = task_queue_init_empty;
  workers = replicate count_workers idle;
  loaded = row;
  called = [];
}

-- thread_pool_reload with the row of a store; `workers'` are the workers after the signals
unfoldable pub thread_pool_reload : System → TaskStore → List ℕ → List Place → System
thread_pool_reload s store row workers' = record s {
  backlog = task_queue_reload s.backlog store;
  workers = workers';
  loaded = row ++ s.loaded;
}

-- 1 if the worker is asleep
abbrev pub asleep : Place → ℕ
asleep waiting = 1
asleep _ = 0

-- pthread_cond_signal wakes up one of those that wait, if any does.
pub data Signal : List Place → List Place → Type 0 where
  wakes :
      {workers : List Place} (ps qs : List Place)
      → workers ≡ ps ++ waiting ∷ qs
      → Signal workers (ps ++ idle ∷ qs)
  nobody : {workers : List Place} → total asleep workers ≡ 0 → Signal workers workers

-- that many signals, one after the other
pub data Signals : ℕ → List Place → List Place → Type 0 where
  no_signal : {workers : List Place} → Signals 0 workers workers
  signal : {n : ℕ} {ws us vs : List Place} → Signal ws us → Signals n us vs → Signals (suc n) ws vs

-- what the workers do by themselves, in any order
pub data Works (s : System) : System → Type 0 where
  here : Works s s
  next :
      {t : System} (ps : List Place) (p : Place) (qs : List Place)
      → Works s t
      → t.workers ≡ ps ++ p ∷ qs
      → Works s (worker_step t ps p qs)

-- The systems that occur: the pool starts with a row of nodes, its workers take steps, the main
-- thread writes to nodes that are not loaded, and loads a row of new ones into an empty backlog; the
-- workers wait for its node_ready, and as many signals reach them as task_queue_reload sends to it.
pub data Reach : System → Type 0 where
  start :
      (memory : Memory) (store : TaskStore) (row : List ℕ) (count_workers : ℕ)
      → 0 < count_workers
      → Holds memory (task_queue_init_store store) row
      → Reach (thread_pool_init memory store row count_workers)
  work :
      {s : System} (ps : List Place) (p : Place) (qs : List Place)
      → Reach s
      → s.workers ≡ ps ++ p ∷ qs
      → Reach (worker_step s ps p qs)
  build :
      {s : System} (memory : Memory)
      → Reach s
      → ((a : ℕ) → 0 < count a s.loaded → memory a ≡ s.memory a)
      → Reach (record s { memory = memory })
  reload :
      {s : System} (store : TaskStore) (row : List ℕ) (sent : ℕ) (workers' : List Place)
      → Reach s
      → task_queue_await_empty s.backlog ≡ true
      → Holds s.memory (task_queue_init_store store) row
      → ((a : ℕ) → count a row + count a s.loaded ≤ 1)
      → (task_queue_reload s.backlog store).node_ready ≡ s.backlog.node_ready + sent
      → Signals sent s.workers workers'
      → Reach (thread_pool_reload s store row workers')
