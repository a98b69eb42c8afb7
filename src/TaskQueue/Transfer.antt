-- ===== src/TaskQueue/Transfer.antt =====
-- Operations that move nodes from one queue to another.
use mathlib.Core.Path.{subst}
use mysql_seed.Prelude.{ℕ, suc, ◌≡◌, refl, sym, ap, ◌∙◌, Option, none, some, List, [], ◌∷◌, ◌++◌}
use mysql_seed.TaskQueue.{
  TaskNode, TaskQueue, Memory, set_prev, push_behind, new_head, transfer_behind, transfer_from,
  task_queue_transfer_all, detach, pop_push_from, task_queue_pop_push,
}
use mysql_seed.TaskQueue.Nodes.{
  All-left, All-right, first_or, Apart, SameOutside, SameTasks, Holds, Holds-SameOutside, Snoc-view,
  Apart-Fresh, Apart-cons, Apart-sym,
}
use mysql_seed.TaskQueue.Writes.{
  task-set_next, task-set_prev, next-set_prev, set_next-other, set_prev-other, next-set_next,
  prev-set_prev,
}
use mysql_seed.TaskQueue.Fifo.{push_behind-Snoc, signal_on_empty, Pushed, Taken, new_head-Taken}

-- What a transfer of the row `xs` behind the row `ys` does.
pub record Transferred (xs ys : List ℕ) (memory memory' : Memory)
    (queue1 queue1' queue2 queue2' : TaskQueue) : Type 0 where
  pub first : Holds memory' queue1' []
  pub second : Holds memory' queue2' (ys ++ xs)
  pub empty : queue1'.empty ≡ suc queue1.empty
  pub node_ready : queue2'.node_ready ≡ signal_on_empty ys queue2.node_ready
  pub same_first : queue1'.node_ready ≡ queue1.node_ready
  pub same_second : queue2'.empty ≡ queue2.empty
  pub tasks : SameTasks memory memory'
  pub spared : SameOutside (ys ++ xs) memory memory'

-- A transfer of a row to an empty queue
transfer_first :
    (memory : Memory) (queue1 queue2 : TaskQueue) (x : ℕ) (xs : List ℕ)
    → Holds memory queue1 (x ∷ xs)
    → let r = transfer_behind memory queue1 queue2 x none in
      Transferred
        (x ∷ xs)
        []
        memory
        r.0
        queue1
        (record queue1 { head = none; last = none; empty = suc queue1.empty })
        queue2
        r.1
unfolding transfer_behind
transfer_first memory queue1 queue2 x xs h = record {
  first = record { head = refl; last = refl; linked = tt; distinct = tt };
  second = record { head = refl; last = h.last; linked = h.linked; distinct = h.distinct };
  empty = refl;
  node_ready = refl;
  same_first = refl;
  same_second = refl;
  tasks = λ a. refl;
  spared = λ a f. refl;
}

-- `task_queue_transfer_all` of a row that is not empty to an empty queue moves the whole row,
-- signals empty of the first queue and node_ready of the second, and changes neither a task nor a
-- node outside of the row (`Transferred`).
pub task_queue_transfer_all-Transferred :
    (memory : Memory) (queue1 queue2 : TaskQueue) (x : ℕ) (xs : List ℕ)
    → Holds memory queue1 (x ∷ xs)
    → Holds memory queue2 []
    → let r = task_queue_transfer_all memory queue1 queue2 in
      Transferred (x ∷ xs) [] memory r.0 queue1 r.1 queue2 r.2
unfolding task_queue_transfer_all transfer_from
task_queue_transfer_all-Transferred memory queue1 queue2 x xs h k =
    subst
      (λ (n : Option ℕ).
        let r = transfer_from memory queue1 queue2 n in
        Transferred (x ∷ xs) [] memory r.0 queue1 r.1 queue2 r.2)
      (sym h.head)
      (subst
        (λ n.
          let r = transfer_behind memory queue1 queue2 x n in
          Transferred (x ∷ xs) [] memory r.0 queue1
            (record queue1 { head = none; last = none; empty = suc queue1.empty }) queue2 r.1)
        (sym k.last) (transfer_first memory queue1 queue2 x xs h))

-- What a pop from one queue and a push to another leave.
pub record Moved (x : ℕ) (xs ys : List ℕ) (memory memory' : Memory)
    (queue1 queue1' queue2 queue2' : TaskQueue) : Type 0 where
  pub first : Holds memory' queue1' xs
  pub second : Holds memory' queue2' (ys ++ x ∷ [])
  pub empty : queue1'.empty ≡ signal_on_empty xs queue1.empty
  pub node_ready : queue2'.node_ready ≡ signal_on_empty ys queue2.node_ready
  pub same_first : queue1'.node_ready ≡ queue1.node_ready
  pub same_second : queue2'.empty ≡ queue2.empty
  pub tasks : SameTasks memory memory'
  pub spared : SameOutside (x ∷ (xs ++ ys)) memory memory'

module _ (memory : Memory) (x : ℕ) where
  detach-same : (n : Option ℕ) → SameOutside (x ∷ []) memory (detach memory x n)
  unfolding detach
  detach-same none a f = refl
  detach-same (some _) a f = set_next-other memory x none a (λ e. f.0 (sym e))

  detach-task : (n : Option ℕ) → SameTasks memory (detach memory x n)
  unfolding detach
  detach-task none a = refl
  detach-task (some _) a = task-set_next memory x none a

-- the node that is moved has no next one, either way
detach-next :
    (memory memory' : Memory) (x : ℕ) (xs : List ℕ)
    → (memory x).next ≡ first_or xs none
    → memory' x ≡ memory x
    → (detach memory' x (first_or xs none) x).next ≡ none
unfolding detach
detach-next memory memory' x [] e s = ap (λ (t : TaskNode). t.next) s ∙ e
detach-next memory memory' x (y ∷ ys) e s = next-set_next memory' x none

-- If the first queue holds a row and the second one another with no node in common,
-- `task_queue_pop_push` moves the node in front of the first row behind the second one, signals
-- empty of the first queue exactly if the node was its only one and node_ready of the second
-- exactly if that was empty, and changes neither a task nor a node of no row (`Moved`).
pub task_queue_pop_push-Moved :
    (memory : Memory) (queue1 queue2 : TaskQueue) (x : ℕ) (xs ys : List ℕ)
    → Holds memory queue1 (x ∷ xs)
    → Holds memory queue2 ys
    → Apart (x ∷ xs) ys
    → (memory' : Memory) × (queue1' : TaskQueue) × (queue2' : TaskQueue) × (task_queue_pop_push
          memory queue1 queue2
        ≡ some (x, memory', queue1', queue2'))
      × Moved x xs ys memory memory' queue1 queue1' queue2 queue2'
unfolding task_queue_pop_push pop_push_from
task_queue_pop_push-Moved memory queue1 queue2 x xs ys h k a = (
  pushed.0,
  popped.1,
  pushed.1,
  rw h.head refl,
  record {
    first =
        Holds-SameOutside popped.0 pushed.0 popped.1 xs (x ∷ ys) behind.spared
          (Apart-cons xs ys x h.distinct.0 a.1) front.holds;
    second = behind.holds;
    empty = front.empty;
    node_ready = behind.node_ready;
    same_first = front.node_ready;
    same_second = behind.empty;
    tasks = λ b. behind.tasks b ∙ front.tasks b;
    spared =
        λ b f. behind.spared b (f.0, All-right _ xs ys f.1) ∙ front.spared b (All-left _ xs ys f.1);
  },
)
  where
    popped : Memory × TaskQueue
    popped = new_head memory queue1 (memory x).next

    detached : Memory
    detached = detach popped.0 x popped.1.head

    pushed : Memory × TaskQueue
    pushed = push_behind (set_prev detached x queue2.last) queue2 x queue2.last

    front : Taken xs memory popped.0 queue1 popped.1
    front =
        subst (λ n. let r = new_head memory queue1 n in Taken xs memory r.0 queue1 r.1)
          (sym h.linked.1) (new_head-Taken memory queue1 (some x) xs h.linked.2 h.distinct.1 h.last)

    detached-next : (detached x).next ≡ none
    detached-next =
        subst (λ n. (detach popped.0 x n x).next ≡ none) (sym front.holds.head)
          (detach-next memory popped.0 x xs h.linked.1 (front.spared x h.distinct.0))

    behind : Pushed ys x popped.0 pushed.0 queue2 pushed.1
    behind =
        subst
          (λ l.
            let r = push_behind (set_prev detached x queue2.last) queue2 x l in
            Pushed ys x popped.0 r.0 queue2 r.1)
          (sym k.last)
          (push_behind-Snoc popped.0 (set_prev detached x queue2.last) queue2 x ys (Snoc-view ys)
            (Holds-SameOutside memory popped.0 queue2 ys xs front.spared (Apart-sym xs ys a.1) k)
            (Apart-Fresh ys xs x (Apart-sym (x ∷ xs) ys a))
            (prev-set_prev detached x queue2.last ∙ k.last)
            (next-set_prev detached x queue2.last x ∙ detached-next)
            (λ b. task-set_prev detached x queue2.last b ∙ detach-task popped.0 x popped.1.head b)
            (λ b f.
              set_prev-other detached x queue2.last b (λ e. f.0 (sym e))
              ∙ detach-same popped.0 x popped.1.head b f))

-- A pop from an empty queue waits.
pub task_queue_pop_push-waits :
    (memory : Memory) (queue1 queue2 : TaskQueue)
    → Holds memory queue1 []
    → task_queue_pop_push memory queue1 queue2 ≡ none
unfolding task_queue_pop_push pop_push_from
task_queue_pop_push-waits memory queue1 queue2 h = rw h.head refl
