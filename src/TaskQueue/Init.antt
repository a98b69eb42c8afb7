-- ===== src/TaskQueue/Init.antt =====
-- task_nodes_init_tasks, task_store_init_tasks: an array of nodes is linked in its order. The nodes
-- of an array have consecutive addresses.
use mysql_seed.Prelude.{
  ℕ, zero, suc, ◌+◌, ◌-◌, ◌<◌, ◌≤◌, ◌≡◌, ◌≢◌, refl, sym, ap, ◌∙◌, ◌⊎◌, inl, inr, Option, none, some,
  List, [], ◌∷◌, arith, length, if◌then◌else◌, ◌==◌, eq→==, ne→==,
}
use mysql_seed.TaskQueue.{
  Closure, TaskNode, TaskStore, Memory, store, set_next, set_prev, task_queue_init_store,
}
use mysql_seed.TaskQueue.Nodes.{Holds, Linked, Distinct, Fresh, final}
use mysql_seed.TaskQueue.Writes.{
  next-set_next, prev-set_prev, prev-set_next, next-set_prev, task-set_next, set_next-other,
  set_prev-other,
}

-- node->task = t
set_task : Memory → ℕ → Closure → Memory
set_task memory a t = store memory a (record (memory a) { task = t })

-- The loop from `node` on, with the tasks that are still to be read; `none` is a read behind them.
task_nodes_loop : Memory → ℕ → ℕ → List Closure → Option (Memory × ℕ)
unfolding set_task
task_nodes_loop memory node last [] = none
task_nodes_loop memory node last (task ∷ tasks) =
    let memory' = set_task memory node task in
    let rest =
      task_nodes_loop (set_prev (set_next memory' node (some (suc node))) (suc node) (some node))
        (suc node) last tasks in
    if node == last then some (memory', last) else rest

unfoldable pub task_nodes_init_tasks : Memory → ℕ → List Closure → ℕ → Option (Memory × ℕ)
unfolding task_nodes_loop
task_nodes_init_tasks memory node tasks count =
    let last = node + (count - 1) in
    task_nodes_loop (set_prev (set_next memory last none) node none) node last tasks

unfoldable pub task_store_init_tasks : Memory → ℕ → List Closure → ℕ → Option (Memory × TaskStore)
unfolding task_nodes_init_tasks
task_store_init_tasks memory nodes tasks count =
    elim (task_nodes_init_tasks memory nodes tasks count) [
      | none ↦ none
      | some (memory', last) ↦ some (memory', record { head = some nodes; last = some last })
    ]

-- `count` nodes from an address on
abbrev pub array : ℕ → ℕ → List ℕ
array node zero = []
array node (suc count) = node ∷ array (suc node) count

abbrev pub Tasks : Memory → ℕ → List Closure → Type 0
Tasks memory node [] = Unit
Tasks memory node (t ∷ ts) = ((memory node).task ≡ t) × Tasks memory (suc node) ts

array-Fresh : (a node count : ℕ) → a < node → Fresh a (array node count)
array-Fresh a node zero h = tt
array-Fresh a node (suc count) h =
    ((λ e. omega arith), array-Fresh a (suc node) count (omega arith))

array-Distinct : (node count : ℕ) → Distinct (array node count)
array-Distinct node zero = tt
array-Distinct node (suc count) =
    (array-Fresh node (suc node) count (omega arith), array-Distinct (suc node) count)

array-final :
    (p : Option ℕ) (node count : ℕ) → final p (array node (suc count)) ≡ some (node + count)
array-final p node zero = ap some (omega arith)
array-final p node (suc count) = array-final (some node) (suc node) count ∙ ap some (omega arith)

module _ (memory : Memory) (a : ℕ) (t : Closure) where
  task-set_task : (set_task memory a t a).task ≡ t
  unfolding set_task
  task-set_task = rw (eq→== a a refl) refl

  set_task-other : (b : ℕ) → b ≢ a → set_task memory a t b ≡ memory b
  unfolding set_task
  set_task-other b h = rw (ne→== b a h) refl

  prev-set_task : (set_task memory a t a).prev ≡ (memory a).prev
  unfolding set_task
  prev-set_task = rw (eq→== a a refl) refl

  next-set_task : (set_task memory a t a).next ≡ (memory a).next
  unfolding set_task
  next-set_task = rw (eq→== a a refl) refl

-- What the loop leaves: `p` is what precedes the first node.
record Built (memory memory' : Memory) (p : Option ℕ) (node : ℕ) (ts : List Closure) : Type 0 where
  linked : Linked memory' p (array node (length ts)) none
  tasks : Tasks memory' node ts
  before : (a : ℕ) → a < node → memory' a ≡ memory a
  behind : (a : ℕ) → node + length ts ≤ a → memory' a ≡ memory a

loop-Built :
    (memory : Memory) (p : Option ℕ) (node last : ℕ) (t : Closure) (ts : List Closure)
    → last ≡ node + length ts
    → (memory node).prev ≡ p
    → (memory last).next ≡ none
    → (memory' : Memory) × (task_nodes_loop memory node last (t ∷ ts) ≡ some (memory', last))
      × Built memory memory' p node (t ∷ ts)
unfolding task_nodes_loop
loop-Built memory p node last t [] e f g = (
  set_task memory node t,
  rw (eq→== node last (omega arith)) refl,
  record {
    linked = (
      prev-set_task memory node t ∙ f,
      next-set_task memory node t ∙ ap (λ n. (memory n).next) (omega arith) ∙ g,
      tt,
    );
    tasks = (task-set_task memory node t, tt);
    before = λ a h. set_task-other memory node t a (omega arith);
    behind = λ a h. set_task-other memory node t a (omega arith);
  },
)
loop-Built memory p node last t (u ∷ us) e f g =
    let (memory', run, built) =
      loop-Built linked (some node) (suc node) last u us (omega arith)
        (prev-set_prev written (suc node) (some node)) last_next in
    (
      memory',
      rw (ne→== node last (omega arith)) run,
      record {
        linked = (
          ap (λ (n : TaskNode). n.prev) (here memory' built.before)
              ∙ prev-set_next tasked node _ node
              ∙ prev-set_task memory node t
              ∙ f,
          ap (λ (n : TaskNode). n.next) (here memory' built.before) ∙ next-set_next tasked node _,
          built.linked,
        );
        tasks = (
          ap (λ (n : TaskNode). n.task) (here memory' built.before)
              ∙ task-set_next tasked node _ node
              ∙ task-set_task memory node t,
          built.tasks,
        );
        before = λ a h. built.before a (omega arith) ∙ other a (omega arith) (omega arith);
        behind = λ a h. built.behind a (omega arith) ∙ other a (omega arith) (omega arith);
      },
    )
  where
    tasked : Memory
    tasked = set_task memory node t

    written : Memory
    written = set_next tasked node (some (suc node))

    linked : Memory
    linked = set_prev written (suc node) (some node)

    other : (a : ℕ) → a ≢ node → a ≢ suc node → linked a ≡ memory a
    other a h k =
        set_prev-other written (suc node) (some node) a k
        ∙ set_next-other tasked node (some (suc node)) a h
        ∙ set_task-other memory node t a h

    last_next : (linked last).next ≡ none
    last_next =
        next-set_prev written (suc node) (some node) last
        ∙ ap (λ (n : TaskNode). n.next)
            (set_next-other tasked node (some (suc node)) last (omega arith)
              ∙ set_task-other memory node t last (omega arith))
        ∙ g

    here :
        (memory' : Memory)
        → ((a : ℕ) → a < suc node → memory' a ≡ linked a)
        → memory' node ≡ written node
    here memory' before =
        before node (omega arith) ∙ set_prev-other written (suc node) (some node) node (omega arith)

-- From at least one task `task_store_init_tasks` makes a store whose row are the nodes of the array
-- in their order, each with its task, and writes to no node outside of the array; a queue that
-- starts with the store holds the row.
pub task_store_init_tasks-array :
    (memory : Memory) (nodes : ℕ) (t : Closure) (ts : List Closure)
    → (memory' : Memory) × (store' : TaskStore) × (task_store_init_tasks memory nodes
          (t ∷ ts)
          (length (t ∷ ts))
        ≡ some (memory', store'))
      × Holds memory' (task_queue_init_store store') (array nodes (length (t ∷ ts)))
      × Tasks memory' nodes (t ∷ ts)
      × ((a : ℕ) → (a < nodes) ⊎ (nodes + length (t ∷ ts) ≤ a) → memory' a ≡ memory a)
unfolding task_store_init_tasks task_nodes_init_tasks task_queue_init_store
task_store_init_tasks-array memory nodes t ts =
    let (memory', run, built) =
      loop-Built ended none nodes last t ts (omega arith) (prev-set_prev _ nodes none) last_next in
    (
      memory',
      record { head = some nodes; last = some last },
      rw (run, task_store_init_tasks) refl,
      record {
        head = refl;
        last = ap some (omega arith) ∙ sym (array-final none nodes (length ts));
        linked = built.linked;
        distinct = array-Distinct nodes (length (t ∷ ts));
      },
      built.tasks,
      λ a h. elim h [
        | inl lt ↦ built.before a lt ∙ outside a (omega arith) (omega arith)
        | inr le ↦ built.behind a le ∙ outside a (omega arith) (omega arith)
      ],
    )
  where
    last : ℕ
    last = nodes + (length (t ∷ ts) - 1)

    ended : Memory
    ended = set_prev (set_next memory last none) nodes none

    last_next : (ended last).next ≡ none
    last_next = next-set_prev _ nodes none last ∙ next-set_next memory last none

    outside : (a : ℕ) → a ≢ nodes → a ≢ last → ended a ≡ memory a
    outside a h k = set_prev-other _ nodes none a h ∙ set_next-other memory last none a k
