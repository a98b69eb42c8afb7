-- ===== src/Tests/Threads.antt =====
-- Queues of tasks and the pool that works on them.
use mysql_seed.Prelude.{
  ℕ, ◌+◌, ◌<◌, ◌≤◌, ◌≡◌, ◌⊎◌, refl, true, Option, none, some, [], ◌∷◌, arith, ◌==◌, if◌then◌else◌,
}
use mysql_seed.TaskQueue.{
  Closure, TaskNode, TaskQueue, TaskStore, Memory, set_next, set_prev, task_queue_push,
  task_queue_pop, task_queue_remove, task_queue_transfer_all, task_queue_pop_push,
  task_queue_init_store, task_queue_init_empty, task_queue_await_empty, task_queue_reload,
}
use mysql_seed.TaskQueue.Nodes.{Holds}
use mysql_seed.TaskQueue.Fifo.{Pushed, Taken, task_queue_push-Pushed, task_queue_pop-Taken}
use mysql_seed.TaskQueue.Remove.{task_queue_remove-Taken}
use mysql_seed.TaskQueue.Transfer.{
  Transferred, Moved, task_queue_transfer_all-Transferred, task_queue_pop_push-Moved,
}
use mysql_seed.TaskQueue.Lost.{task_queue_transfer_all-loses}
use mysql_seed.TaskQueue.Init.{Tasks, task_store_init_tasks, task_store_init_tasks-array}
use mysql_seed.ThreadPool.{
  idle, running, ran, removed, System, worker_step, thread_pool_init, Works, here, next, Reach,
  start, work, reload, waiting, thread_pool_reload, wakes, signal, no_signal,
}
use mysql_seed.ThreadPool.Count.{count}
use mysql_seed.ThreadPool.Await.{Rows, Reach-Rows, thread_pool_await-called}
use mysql_seed.ThreadPool.Drain.{Drains, Reach-Drains}

abbrev job : Closure
job = record { fun = 64; arg = 128 }

abbrev node : Option ℕ → Option ℕ → TaskNode
node p n = record { task = job; prev = p; next = n }

-- 1 and 2 in one row, 3 and 4 in another
abbrev memory : Memory
memory a =
    if a == 1
    then node none (some 2)
    else if a == 2
    then node (some 1) none
    else if a == 3
    then node none (some 4)
    else if a == 4
    then node (some 3) none
    else node none none

abbrev queue_12 : TaskQueue
queue_12 = record { node_ready = 0; empty = 0; head = some 1; last = some 2 }

abbrev queue_34 : TaskQueue
queue_34 = record { node_ready = 0; empty = 0; head = some 3; last = some 4 }

Holds-12 : Holds memory queue_12 (1 ∷ 2 ∷ [])
Holds-12 = record {
  head = refl;
  last = refl;
  linked = (refl, refl, (refl, refl, tt));
  distinct = omega arith;
}

Holds-34 : Holds memory queue_34 (3 ∷ 4 ∷ [])
Holds-34 = record {
  head = refl;
  last = refl;
  linked = (refl, refl, (refl, refl, tt));
  distinct = omega arith;
}

Holds-empty : Holds memory task_queue_init_empty []
unfolding task_queue_init_empty
Holds-empty = record { head = refl; last = refl; linked = tt; distinct = tt }

task_queue_push-Pushed_example :
    let r = task_queue_push memory queue_12 5 in Pushed (1 ∷ 2 ∷ []) 5 memory r.0 queue_12 r.1
task_queue_push-Pushed_example =
    task_queue_push-Pushed memory queue_12 5 (1 ∷ 2 ∷ []) Holds-12 (omega arith)

task_queue_pop-Taken_example :
    (memory' : Memory) × (queue' : TaskQueue) × (task_queue_pop memory queue_12
      ≡ some (1, memory', queue'))
    × Taken (2 ∷ []) memory memory' queue_12 queue'
task_queue_pop-Taken_example = task_queue_pop-Taken memory queue_12 1 (2 ∷ []) Holds-12

task_queue_remove-Taken_example :
    let r = task_queue_remove memory queue_12 2 in Taken (1 ∷ []) memory r.0 queue_12 r.1
task_queue_remove-Taken_example = task_queue_remove-Taken memory queue_12 2 (1 ∷ []) [] Holds-12

task_queue_transfer_all-Transferred_example :
    let r = task_queue_transfer_all memory queue_12 task_queue_init_empty in
    Transferred (1 ∷ 2 ∷ []) [] memory r.0 queue_12 r.1 task_queue_init_empty r.2
task_queue_transfer_all-Transferred_example =
    task_queue_transfer_all-Transferred memory queue_12 task_queue_init_empty 1 (2 ∷ []) Holds-12
      Holds-empty

task_queue_pop_push-Moved_example :
    (memory' : Memory) × (queue1' : TaskQueue) × (queue2' : TaskQueue) × (task_queue_pop_push memory
        queue_12 queue_34
      ≡ some (1, memory', queue1', queue2'))
    × Moved 1 (2 ∷ []) (3 ∷ 4 ∷ []) memory memory' queue_12 queue1' queue_34 queue2'
task_queue_pop_push-Moved_example =
    task_queue_pop_push-Moved memory queue_12 queue_34 1 (2 ∷ []) (3 ∷ 4 ∷ []) Holds-12 Holds-34
      (omega arith)

task_queue_transfer_all-loses_example :
    let r = task_queue_transfer_all memory queue_34 queue_12 in
    let s = task_queue_push r.0 r.2 5 in Holds s.0 r.1 [] × Holds s.0 s.1 (1 ∷ 2 ∷ 5 ∷ [])
task_queue_transfer_all-loses_example =
    task_queue_transfer_all-loses memory queue_34 queue_12 3 2 5 (4 ∷ []) (1 ∷ []) Holds-34 Holds-12
      (omega arith) (omega arith)

task_store_init_tasks-array_example :
    (memory' : Memory) × (store' : TaskStore) × (task_store_init_tasks memory 6
        (job ∷ job ∷ job ∷ [])
        3
      ≡ some (memory', store'))
    × Holds memory' (task_queue_init_store store') (6 ∷ 7 ∷ 8 ∷ [])
    × Tasks memory' 6 (job ∷ job ∷ job ∷ [])
    × ((a : ℕ) → (a < 6) ⊎ (9 ≤ a) → memory' a ≡ memory a)
task_store_init_tasks-array_example = task_store_init_tasks-array memory 6 job (job ∷ job ∷ [])

-- a pool of two workers with the nodes 1 and 2
abbrev loaded_store : TaskStore
loaded_store = record { head = some 1; last = some 2 }

Holds-store : Holds memory (task_queue_init_store loaded_store) (1 ∷ 2 ∷ [])
unfolding task_queue_init_store
Holds-store = record {
  head = refl;
  last = refl;
  linked = (refl, refl, (refl, refl, tt));
  distinct = omega arith;
}

abbrev pool_0 : System
pool_0 = thread_pool_init memory loaded_store (1 ∷ 2 ∷ []) 2

abbrev pool_1 : System
pool_1 = worker_step pool_0 [] idle (idle ∷ [])

abbrev pool_2 : System
pool_2 = worker_step pool_1 (running 1 ∷ []) idle []

abbrev pool_3 : System
pool_3 = worker_step pool_2 [] (running 1) (running 2 ∷ [])

abbrev pool_4 : System
pool_4 = worker_step pool_3 (ran 1 ∷ []) (running 2) []

abbrev pool_5 : System
pool_5 = worker_step pool_4 [] (ran 1) (ran 2 ∷ [])

abbrev pool_6 : System
pool_6 = worker_step pool_5 (removed 1 ∷ []) (ran 2) []

Reach-0 : Reach pool_0
Reach-0 = start memory loaded_store (1 ∷ 2 ∷ []) 2 (omega arith) Holds-store

Reach-2 : Reach pool_2
unfolding worker_step thread_pool_init task_queue_pop_push task_queue_init_store
Reach-2 = work (running 1 ∷ []) idle [] (work [] idle (idle ∷ []) Reach-0 refl) refl

Works-2_6 : Works pool_2 pool_6
unfolding worker_step thread_pool_init task_queue_pop_push task_queue_init_store
Works-2_6 =
    next (removed 1 ∷ []) (ran 2) []
      (next [] (ran 1) (ran 2 ∷ [])
        (next (ran 1 ∷ []) (running 2) [] (next [] (running 1) (running 2 ∷ []) here refl) refl)
        refl)
      refl

backlog_2 : task_queue_await_empty pool_2.backlog ≡ true
unfolding worker_step thread_pool_init task_queue_await_empty task_queue_pop_push
    task_queue_init_store task_queue_init_empty set_prev set_next
backlog_2 = refl

active_6 : task_queue_await_empty pool_6.active ≡ true
unfolding worker_step thread_pool_init task_queue_await_empty task_queue_remove task_queue_pop_push
    task_queue_init_store task_queue_init_empty set_next set_prev
active_6 = refl

thread_pool_await-called_example : count 2 pool_6.called ≡ count 2 pool_6.loaded
thread_pool_await-called_example =
    thread_pool_await-called pool_2 pool_6 Reach-2 backlog_2 Works-2_6 active_6 2

Reach-Rows_example : Rows pool_2
Reach-Rows_example = Reach-Rows Reach-2

-- a pool of two workers that find no node and wait
abbrev no_store : TaskStore
no_store = record { head = none; last = none }

abbrev pool_asleep : System
pool_asleep =
    worker_step (worker_step (thread_pool_init memory no_store [] 2) [] idle (idle ∷ []))
      (waiting ∷ []) idle []

Reach-asleep : Reach pool_asleep
unfolding worker_step thread_pool_init task_queue_pop_push task_queue_init_store
Reach-asleep =
    work (waiting ∷ []) idle []
      (work [] idle (idle ∷ [])
        (start memory no_store [] 2 (omega arith)
          (record { head = refl; last = refl; linked = tt; distinct = tt }))
        refl)
      refl

-- it is loaded with the nodes 1 and 2, and the signal wakes up one of them
abbrev pool_loaded : System
pool_loaded = thread_pool_reload pool_asleep loaded_store (1 ∷ 2 ∷ []) (idle ∷ waiting ∷ [])

once_12 : (a : ℕ) → count a (1 ∷ 2 ∷ []) + 0 ≤ 1
once_12 a = ground arith

Reach-loaded : Reach pool_loaded
unfolding worker_step thread_pool_init task_queue_pop_push task_queue_init_store
    task_queue_await_empty task_queue_reload
Reach-loaded =
    reload loaded_store (1 ∷ 2 ∷ []) 1 (idle ∷ waiting ∷ []) Reach-asleep refl Holds-store once_12
      refl (signal (wakes [] (waiting ∷ []) refl) no_signal)

Reach-Drains_example : Drains pool_loaded
Reach-Drains_example = Reach-Drains pool_loaded Reach-loaded
