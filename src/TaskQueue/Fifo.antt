-- ===== src/TaskQueue/Fifo.antt =====
-- task_queue_push and task_queue_pop on the row of a queue.
use mysql_seed.Prelude.{
  ℕ, suc, ◌≡◌, ◌≢◌, refl, sym, ap, ◌∙◌, Option, none, some, List, [], ◌∷◌, ◌++◌,
}
use mathlib.Core.Path.{subst}
use mysql_seed.TaskQueue.{
  TaskNode, TaskQueue, Memory, set_next, set_prev, push_behind, push_behind_quiet, new_head,
  task_queue_push_quiet, task_queue_push, task_queue_pop,
}
use mysql_seed.TaskQueue.Nodes.{
  All-left, All-right, first_or-append, first_or, final, Linked, Fresh, Distinct, All-imp, All-both,
  Distinct-split, Distinct-append, Linked-append, SameOutside, SameTasks, Holds, Snoc, empty, snoc,
  Snoc-view, final-snoc, first_or-snoc, Apart-Fresh, Apart-cons, Apart-nil,
}
use mysql_seed.TaskQueue.Writes.{
  prev-set_next, task-set_next, task-set_prev, next-set_prev, set_next-other, set_prev-other,
  next-set_next, prev-set_prev,
}
use mysql_seed.TaskQueue.Relink.{Linked-next, Linked-prev}

-- a signal, if there is none in the row
abbrev pub signal_on_empty : List ℕ → ℕ → ℕ
signal_on_empty [] n = suc n
signal_on_empty (_ ∷ _) n = n

pub signal-snoc : (xs : List ℕ) (x n : ℕ) → signal_on_empty (xs ++ x ∷ []) n ≡ n
signal-snoc [] x n = refl
signal-snoc (_ ∷ _) x n = refl

pub signal-behind : (xs ys : List ℕ) (x n : ℕ) → signal_on_empty ((xs ++ x ∷ []) ++ ys) n ≡ n
signal-behind [] ys x n = refl
signal-behind (_ ∷ xs) ys x n = refl

-- What a push of `node` to the queue of the row `xs` does.
pub record Pushed (xs : List ℕ) (node : ℕ) (memory memory' : Memory) (queue queue' : TaskQueue)
    : Type 0 where
  pub holds : Holds memory' queue' (xs ++ node ∷ [])
  pub node_ready : queue'.node_ready ≡ signal_on_empty xs queue.node_ready
  pub empty : queue'.empty ≡ queue.empty
  pub tasks : SameTasks memory memory'
  pub spared : SameOutside (node ∷ xs) memory memory'

pub Distinct-snoc :
    (xs : List ℕ) (node : ℕ) → Distinct xs → Fresh node xs → Distinct (xs ++ node ∷ [])
Distinct-snoc xs node d f =
    Distinct-append xs (node ∷ []) d (tt, tt) (Apart-cons xs [] node f (Apart-nil xs))

-- The branches of a push, once the new node is set to follow the last one.
module _ (memory memory' : Memory) (queue : TaskQueue) (node : ℕ) where
  pub push_behind-Snoc :
      (xs : List ℕ)
      → Snoc xs
      → Holds memory queue xs
      → Fresh node xs
      → (memory' node).prev ≡ final none xs
      → (memory' node).next ≡ none
      → SameTasks memory memory'
      → SameOutside (node ∷ []) memory memory'
      → let r = push_behind memory' queue node (final none xs) in
        Pushed xs node memory r.0 queue r.1
  unfolding push_behind
  push_behind-Snoc _ empty h f p n t s = record {
    holds = record { head = refl; last = refl; linked = (p, n, tt); distinct = (tt, tt) };
    node_ready = refl;
    empty = refl;
    tasks = t;
    spared = s;
  }
  push_behind-Snoc _ (snoc ys y) h f p n t s =
      let here = All-right (λ x. x ≢ node) ys (y ∷ []) f in
      let apart = Apart-Fresh ys [] y (Distinct-split ys (y ∷ []) h.distinct).2 in
      rw (final-snoc none ys y) (record {
        holds = record {
          head =
              h.head
              ∙ first_or-snoc ys y none
              ∙ sym (
                  first_or-append (ys ++ y ∷ []) (node ∷ []) none ∙ first_or-snoc ys y (some node));
          last = sym (final-snoc none (ys ++ y ∷ []) node);
          linked =
              Linked-append (set_next memory' y (some node)) none none (ys ++ y ∷ []) (node ∷ [])
                (Linked-next memory _ none none (some node) ys y
                  (All-both (λ x. x ≢ node) (λ x. x ≢ y) _ ys
                    (λ x a b. set_next-other _ y _ x b ∙ s x (λ e. a (sym e), tt))
                    (All-left _ ys (y ∷ []) f) apart)
                  (prev-set_next _ y _ y
                    ∙ ap (λ (t : TaskNode). t.prev) (s y (λ e. here.0 (sym e), tt)))
                  (next-set_next _ y _) h.linked)
                (
                  prev-set_next _ y _ node ∙ p,
                  ap (λ (t : TaskNode). t.next) (set_next-other _ y _ node (λ e. here.0 (sym e)))
                      ∙ n,
                  tt,
                );
          distinct = Distinct-snoc _ node h.distinct f;
        };
        node_ready = sym (signal-snoc ys y queue.node_ready);
        empty = refl;
        tasks = λ a. task-set_next _ y _ a ∙ t a;
        spared = λ a g.
            set_next-other _ y _ a (λ e. (All-right _ ys (y ∷ []) g.1).0 (sym e)) ∙ s a (g.0, tt);
      })

-- What taking the node in front of the row `xs` does.
pub record Taken (xs : List ℕ) (memory memory' : Memory) (queue queue' : TaskQueue) : Type 0 where
  pub holds : Holds memory' queue' xs
  pub empty : queue'.empty ≡ signal_on_empty xs queue.empty
  pub node_ready : queue'.node_ready ≡ queue.node_ready
  pub tasks : SameTasks memory memory'
  pub spared : SameOutside xs memory memory'

pub new_head-Taken :
    (memory : Memory) (queue : TaskQueue) (p : Option ℕ) (xs : List ℕ)
    → Linked memory p xs none
    → Distinct xs
    → queue.last ≡ final p xs
    → let r = new_head memory queue (first_or xs none) in Taken xs memory r.0 queue r.1
unfolding new_head
new_head-Taken memory queue p [] h d l = record {
  holds = record { head = refl; last = refl; linked = tt; distinct = tt };
  empty = refl;
  node_ready = refl;
  tasks = λ a. refl;
  spared = λ a f. refl;
}
new_head-Taken memory queue p (y ∷ ys) h d l = record {
  holds = record {
    head = refl;
    last = l;
    linked =
        Linked-prev memory (set_prev memory y none) p none none y ys
          (All-imp (λ x. x ≢ y) _ ys (λ x f. set_prev-other memory y none x f) d.0)
          (prev-set_prev memory y none) (next-set_prev memory y none y) h;
    distinct = d;
  };
  empty = refl;
  node_ready = refl;
  tasks = task-set_prev memory y none;
  spared = λ a f. set_prev-other memory y none a (λ e. f.0 (sym e));
}

-- `task_queue_push` of a node that the queue does not hold puts it at the end of the row, from
-- whose front `task_queue_pop` takes the nodes, signals node_ready exactly if the row was empty,
-- and changes neither a task nor a node that is not in the new row (`Pushed`) (FIFO, although the
-- heading of these functions in the header says "LIFO push").
pub task_queue_push-Pushed :
    (memory : Memory) (queue : TaskQueue) (node : ℕ) (xs : List ℕ)
    → Holds memory queue xs
    → Fresh node xs
    → let r = task_queue_push memory queue node in Pushed xs node memory r.0 queue r.1
unfolding task_queue_push
task_queue_push-Pushed memory queue node xs h f =
    let memory' = set_prev (set_next memory node none) node queue.last in
    subst (λ l. let r = push_behind memory' queue node l in Pushed xs node memory r.0 queue r.1)
      (sym h.last)
      (push_behind-Snoc memory memory' queue node xs (Snoc-view xs) h f
        (prev-set_prev _ node _ ∙ h.last)
        (next-set_prev _ node _ node ∙ next-set_next memory node none)
        (λ a. task-set_prev _ node _ a ∙ task-set_next memory node none a)
        (λ a g.
          set_prev-other _ node _ a (λ e. g.0 (sym e))
          ∙ set_next-other memory node none a (λ e. g.0 (sym e))))

-- `task_queue_pop` from a row that is not empty takes the node in front, signals empty exactly if
-- it was the only one, and changes neither a task nor a node that is not left in the row (`Taken`)
-- (FIFO, although the heading of these functions in the header says "LIFO pop").
pub task_queue_pop-Taken :
    (memory : Memory) (queue : TaskQueue) (x : ℕ) (xs : List ℕ)
    → Holds memory queue (x ∷ xs)
    → (memory' : Memory) × (queue' : TaskQueue) × (task_queue_pop memory queue
        ≡ some (x, memory', queue'))
      × Taken xs memory memory' queue queue'
unfolding task_queue_pop
task_queue_pop-Taken memory queue x xs h =
    let r = new_head memory queue (memory x).next in
    (
      r.0,
      r.1,
      rw h.head refl,
      subst (λ n. let r' = new_head memory queue n in Taken xs memory r'.0 queue r'.1)
          (sym h.linked.1) (new_head-Taken memory queue (some x) xs h.linked.2 h.distinct.1 h.last),
    )

-- A pop waits exactly if the row is empty.
pub task_queue_pop-waits :
    (memory : Memory) (queue : TaskQueue)
    → Holds memory queue []
    → task_queue_pop memory queue ≡ none
unfolding task_queue_pop
task_queue_pop-waits memory queue h = rw h.head refl

-- The quiet push is the push without its signal.
pub task_queue_push_quiet-eq :
    (memory : Memory) (queue : TaskQueue) (node : ℕ)
    → let r = task_queue_push memory queue node in
      task_queue_push_quiet memory queue node
      ≡ (r.0, record (r.1) { node_ready = queue.node_ready })
unfolding task_queue_push task_queue_push_quiet push_behind push_behind_quiet
task_queue_push_quiet-eq memory queue node = quiet _ queue.last
  where
    quiet :
        (memory' : Memory) (l : Option ℕ)
        → let r = push_behind memory' queue node l in
          push_behind_quiet memory' queue node l
          ≡ (r.0, record (r.1) { node_ready = queue.node_ready })
    quiet memory' none = refl
    quiet memory' (some last) = refl
