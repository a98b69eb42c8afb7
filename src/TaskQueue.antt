-- ===== src/TaskQueue.antt =====
-- thread/task_queue.h: the doubly linked queues of tasks. A node is an address in a memory of nodes,
-- NULL is `none`. Each operation is what the source does while it holds the lock of the queue; a
-- condition variable is the number of signals that were sent to it. A wait, at which an operation
-- gives up the lock to start its test again, is `none`. The _muffle, _report and _handle_cl variants
-- of an operation differ in what they do when the system refuses a lock.
pub mod Writes
pub mod Nodes
pub mod Relink
pub mod Fifo
pub mod Remove
pub mod Transfer
pub mod Lost
pub mod Init
use mysql_seed.Prelude.{
  ℕ, zero, suc, ◌+◌, ◌-◌, ◌*◌, ◌/◌, ◌%◌, ◌^◌, ◌≤◌, ◌<◌, min, ◌≡◌, refl, sym, ap, ◌∙◌, ◌≢◌, ◌↔◌, ◌⊎◌,
  inl, inr, Bool, true, false, not, ◌&&◌, ◌||◌, Option, none, some, List, [], ◌∷◌, ◌++◌, map, arith,
  ltb, leb, ◌==◌, if◌then◌else◌, eq→==, ==→eq, lt→ltb, ltb→lt, le→ltb, ne→==, Bool-cases,
  Option-cases, length, get_or, set, replicate, length-append, length-replicate, all_below,
  all_below_sound, sum, sum-append, codes,
}

-- struct ProcedureClosure, by the addresses of its function and its argument
pub record Closure : Type 0 where
  pub fun : ℕ
  pub arg : ℕ

pub record TaskNode : Type 0 where
  pub task : Closure
  pub prev : Option ℕ
  pub next : Option ℕ

pub record TaskQueue : Type 0 where
  pub node_ready : ℕ
  pub empty : ℕ
  pub head : Option ℕ
  pub last : Option ℕ

abbrev pub Memory : Type 0
Memory = ℕ → TaskNode

abbrev pub store : Memory → ℕ → TaskNode → Memory
store memory a node = λ b. if b == a then node else memory b

-- a->next = v and a->prev = v
unfoldable pub set_next : Memory → ℕ → Option ℕ → Memory
set_next memory a v = store memory a (record (memory a) { next = v })

unfoldable pub set_prev : Memory → ℕ → Option ℕ → Memory
set_prev memory a v = store memory a (record (memory a) { prev = v })

-- the branches on queue->last == NULL of a push
pub push_behind : Memory → TaskQueue → ℕ → Option ℕ → Memory × TaskQueue
push_behind memory queue node none =
    (memory, record queue { head = some node; last = some node; node_ready = suc queue.node_ready })
push_behind memory queue node (some last) =
    (set_next memory last (some node), record queue { last = some node })

unfoldable pub task_queue_push : Memory → TaskQueue → ℕ → Memory × TaskQueue
unfolding push_behind
task_queue_push memory queue node =
    push_behind (set_prev (set_next memory node none) node queue.last) queue node queue.last

-- the same without the signal
push_behind_quiet : Memory → TaskQueue → ℕ → Option ℕ → Memory × TaskQueue
push_behind_quiet memory queue node none =
    (memory, record queue { head = some node; last = some node })
push_behind_quiet memory queue node (some last) =
    (set_next memory last (some node), record queue { last = some node })

unfoldable pub task_queue_push_quiet : Memory → TaskQueue → ℕ → Memory × TaskQueue
unfolding push_behind_quiet
task_queue_push_quiet memory queue node =
    push_behind_quiet (set_prev (set_next memory node none) node queue.last) queue node queue.last

-- the branches on queue->head == NULL once queue->head is the next node
pub new_head : Memory → TaskQueue → Option ℕ → Memory × TaskQueue
new_head memory queue none =
    (memory, record queue { head = none; last = none; empty = suc queue.empty })
new_head memory queue (some next) = (set_prev memory next none, record queue { head = some next })

pop_from : Memory → TaskQueue → Option ℕ → Option (ℕ × Memory × TaskQueue)
unfolding new_head
pop_from memory queue none = none
pop_from memory queue (some node) =
    let (memory', queue') = new_head memory queue (memory node).next in some (node, memory', queue')

-- the node that is popped, and what is left
unfoldable pub task_queue_pop : Memory → TaskQueue → Option (ℕ × Memory × TaskQueue)
unfolding pop_from
task_queue_pop memory queue = pop_from memory queue queue.head

-- the branches on node->next == NULL behind a node->prev
pub remove_behind : Memory → TaskQueue → Option ℕ → Option ℕ → Memory × TaskQueue
remove_behind memory queue prev none = (memory, record queue { last = prev })
remove_behind memory queue prev (some next) = (set_prev memory next prev, queue)

-- the branches on node->prev == NULL
pub remove_at : Memory → TaskQueue → ℕ → Option ℕ → Memory × TaskQueue
unfolding new_head remove_behind
remove_at memory queue node none = new_head memory queue (memory node).next
remove_at memory queue node (some prev) =
    let memory' = set_next memory prev (memory node).next in
    remove_behind memory' queue (memory' node).prev (memory' node).next

unfoldable pub task_queue_remove : Memory → TaskQueue → ℕ → Memory × TaskQueue
unfolding remove_at
task_queue_remove memory queue node = remove_at memory queue node (memory node).prev

clear_from : TaskQueue → Option ℕ → TaskQueue
clear_from queue none = queue
clear_from queue (some node) = record queue { head = none; last = none; empty = suc queue.empty }

unfoldable pub task_queue_clear : TaskQueue → TaskQueue
unfolding clear_from
task_queue_clear queue = clear_from queue queue.head

-- the branches on queue2->last == NULL of a transfer, where `node` is queue1->head
pub transfer_behind : Memory → TaskQueue → TaskQueue → ℕ → Option ℕ → Memory × TaskQueue
transfer_behind memory queue1 queue2 node none = (
  memory,
  record queue2 { head = some node; last = queue1.last; node_ready = suc queue2.node_ready },
)
transfer_behind memory queue1 queue2 node (some last) =
    (set_next (set_prev memory node (some last)) last (some node), queue2)

transfer_from : Memory → TaskQueue → TaskQueue → Option ℕ → Memory × TaskQueue × TaskQueue
unfolding transfer_behind
transfer_from memory queue1 queue2 none = (memory, queue1, queue2)
transfer_from memory queue1 queue2 (some node) =
    let (memory', queue2') = transfer_behind memory queue1 queue2 node queue2.last in
    (memory', record queue1 { head = none; last = none; empty = suc queue1.empty }, queue2')

unfoldable pub task_queue_transfer_all :
    Memory → TaskQueue → TaskQueue → Memory × TaskQueue × TaskQueue
unfolding transfer_from
task_queue_transfer_all memory queue1 queue2 = transfer_from memory queue1 queue2 queue1.head

-- `node->next = NULL`, if the first queue is not empty by then
detach : Memory → ℕ → Option ℕ → Memory
detach memory node none = memory
detach memory node (some _) = set_next memory node none

pop_push_from :
    Memory → TaskQueue → TaskQueue → Option ℕ → Option (ℕ × Memory × TaskQueue × TaskQueue)
unfolding new_head detach push_behind
pop_push_from memory queue1 queue2 none = none
pop_push_from memory queue1 queue2 (some node) =
    let (popped, queue1') = new_head memory queue1 (memory node).next in
    let detached = set_prev (detach popped node queue1'.head) node queue2.last in
    let (pushed, queue2') = push_behind detached queue2 node queue2.last in
    some (node, pushed, queue1', queue2')

-- the node that is moved; the first queue is locked until the second one has it
unfoldable pub task_queue_pop_push :
    Memory → TaskQueue → TaskQueue → Option (ℕ × Memory × TaskQueue × TaskQueue)
unfolding pop_push_from
task_queue_pop_push memory queue1 queue2 = pop_push_from memory queue1 queue2 queue1.head

pub record TaskStore : Type 0 where
  pub head : Option ℕ
  pub last : Option ℕ

unfoldable pub task_queue_init_store : TaskStore → TaskQueue
task_queue_init_store store = record {
  node_ready = 0;
  empty = 0;
  head = store.head;
  last = store.last;
}

unfoldable pub task_queue_init_empty : TaskQueue
task_queue_init_empty = record { node_ready = 0; empty = 0; head = none; last = none }

unfoldable pub task_queue_reload : TaskQueue → TaskStore → TaskQueue
task_queue_reload queue store = record queue {
  head = store.head;
  last = store.last;
  node_ready = suc queue.node_ready;
}

unfoldable pub task_queue_retreive_cold_quiet : TaskQueue → TaskQueue × TaskStore
task_queue_retreive_cold_quiet queue =
    (record queue { head = none; last = none }, record { head = queue.head; last = queue.last })

unfoldable pub task_store_swap : TaskStore → TaskStore → TaskStore × TaskStore
task_store_swap store1 store2 = (
  record { head = store2.head; last = store2.last },
  record { head = store1.head; last = store1.last },
)

-- whether task_queue_await_empty returns; it waits otherwise
unfoldable pub task_queue_await_empty : TaskQueue → Bool
task_queue_await_empty queue = elim (queue.head) [ none ↦ true | some _ ↦ false ]
