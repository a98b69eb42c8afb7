-- ===== src/TaskQueue/Remove.antt =====
-- Taking a node out of the middle of a queue.
use mathlib.Core.Path.{subst}
use mysql_seed.Prelude.{ℕ, ◌≡◌, ◌≢◌, refl, sym, ap, ◌∙◌, Option, none, some, List, [], ◌∷◌, ◌++◌}
use mathlib.Core.List.{append-nil}
use mysql_seed.TaskQueue.{
  TaskNode, TaskQueue, Memory, set_next, set_prev, new_head, remove_behind, remove_at,
  task_queue_remove,
}
use mysql_seed.TaskQueue.Nodes.{
  All-left, All-right, first_or-append, first_or, final, All-imp, Distinct-split, Distinct-append,
  Linked-split, Holds, Snoc, empty, snoc, Snoc-view, final-append, final-snoc, first_or-snoc,
  first_or-behind, Apart-Fresh, Apart-tail,
}
use mysql_seed.TaskQueue.Writes.{
  prev-set_next, task-set_next, task-set_prev, next-set_prev, set_next-other, set_prev-other,
  next-set_next, prev-set_prev,
}
use mysql_seed.TaskQueue.Relink.{Linked-next, Linked-concat}
use mysql_seed.TaskQueue.Fifo.{signal-snoc, signal-behind, Taken, new_head-Taken}

module _ (memory : Memory) (queue : TaskQueue) (node z : ℕ) (zs : List ℕ) where
  -- between `z` and the end
  remove_last :
      Holds memory queue ((zs ++ z ∷ []) ++ node ∷ [])
      → let r = remove_behind (set_next memory z none) queue (some z) none in
        Taken (zs ++ z ∷ []) memory r.0 queue r.1
  unfolding remove_behind
  remove_last h =
      let (d, _, a) = Distinct-split (zs ++ z ∷ []) (node ∷ []) h.distinct in
      let (_, _, b) = Distinct-split zs (z ∷ []) d in
      let (l, _) = Linked-split memory none none (zs ++ z ∷ []) (node ∷ []) h.linked in
      record {
        holds = record {
          head =
              h.head
              ∙ first_or-append (zs ++ z ∷ []) (node ∷ []) none
              ∙ first_or-snoc zs z (some node)
              ∙ sym (first_or-snoc zs z none);
          last = sym (final-snoc none zs z);
          linked =
              Linked-next memory (set_next memory z none) none (some node) none zs z
                (All-imp (λ x. x ≢ z) _ zs (λ x f. set_next-other memory z none x f)
                  (Apart-Fresh zs [] z b))
                (prev-set_next memory z none z) (next-set_next memory z none) l;
          distinct = d;
        };
        empty = sym (signal-snoc zs z queue.empty);
        node_ready = refl;
        tasks = task-set_next memory z none;
        spared = λ x f. set_next-other memory z none x (λ e. (All-right _ zs (z ∷ []) f).0 (sym e));
      }

  -- between `z` and another node
  remove_inner :
      (y : ℕ) (ys : List ℕ)
      → Holds memory queue ((zs ++ z ∷ []) ++ node ∷ y ∷ ys)
      → let r = remove_behind (set_next memory z (some y)) queue (some z) (some y) in
        Taken ((zs ++ z ∷ []) ++ y ∷ ys) memory r.0 queue r.1
  unfolding remove_behind
  remove_inner y ys h =
      let (d, k, a) = Distinct-split (zs ++ z ∷ []) (node ∷ y ∷ ys) h.distinct in
      let apart = Apart-tail (zs ++ z ∷ []) (y ∷ ys) node a in
      let (l, m) = Linked-split memory none none (zs ++ z ∷ []) (node ∷ y ∷ ys) h.linked in
      let z≢y = (All-right (λ x. x ≢ y) zs (z ∷ []) (Apart-Fresh (zs ++ z ∷ []) ys y apart)).0 in
      let written = set_next memory z (some y) in
      record {
        holds = record {
          head =
              h.head
              ∙ first_or-behind zs (node ∷ y ∷ ys) z none
              ∙ sym (first_or-behind zs (y ∷ ys) z none);
          last =
              h.last
              ∙ final-append none (zs ++ z ∷ []) (node ∷ y ∷ ys)
              ∙ sym (final-append none (zs ++ z ∷ []) (y ∷ ys));
          linked =
              Linked-concat memory (set_prev written y (some z)) none (some node) (some node) zs z y
                ys d k.1 apart
                (λ x f.
                  set_prev-other written y (some z) x (λ e. f.1.0 (sym e))
                  ∙ set_next-other memory z (some y) x (λ e. f.0 (sym e)))
                (ap (λ (t : TaskNode). t.prev) (set_prev-other written y (some z) z z≢y)
                  ∙ prev-set_next memory z (some y) z)
                (next-set_prev written y (some z) z ∙ next-set_next memory z (some y))
                (prev-set_prev written y (some z))
                (next-set_prev written y (some z) y
                  ∙ ap (λ (t : TaskNode). t.next)
                      (set_next-other memory z (some y) y (λ e. z≢y (sym e))))
                l m.2;
          distinct = Distinct-append (zs ++ z ∷ []) (y ∷ ys) d k.1 apart;
        };
        empty = sym (signal-behind zs (y ∷ ys) z queue.empty);
        node_ready = refl;
        tasks = λ x. task-set_prev written y (some z) x ∙ task-set_next memory z (some y) x;
        spared = λ x f.
            let at_z =
              All-right (λ b. b ≢ x) zs (z ∷ [])
                (All-left (λ b. b ≢ x) (zs ++ z ∷ []) (y ∷ ys) f) in
            let at_y = All-right (λ b. b ≢ x) (zs ++ z ∷ []) (y ∷ ys) f in
            set_prev-other written y (some z) x (λ e. at_y.0 (sym e))
            ∙ set_next-other memory z (some y) x (λ e. at_z.0 (sym e));
      }

remove_at-prev :
    (memory : Memory) (queue : TaskQueue) (node z : ℕ) (n : Option ℕ)
    → (memory node).prev ≡ some z
    → (memory node).next ≡ n
    → node ≢ z
    → remove_at memory queue node (some z) ≡ remove_behind (set_next memory z n) queue (some z) n
unfolding remove_at
remove_at-prev memory queue node z n p e d = rw (e, set_next-other memory z n node d, p, e)

-- the branches on node->prev, for a node behind `xs`
remove_behind-Taken :
    (memory : Memory) (queue : TaskQueue) (node : ℕ) (xs ys : List ℕ)
    → Snoc xs
    → Holds memory queue (xs ++ node ∷ ys)
    → let r = remove_at memory queue node (final none xs) in Taken (xs ++ ys) memory r.0 queue r.1
unfolding remove_at
remove_behind-Taken memory queue node _ ys empty h =
    subst (λ n. let r = new_head memory queue n in Taken ys memory r.0 queue r.1) (sym h.linked.1)
      (new_head-Taken memory queue (some node) ys h.linked.2 h.distinct.1 h.last)
remove_behind-Taken memory queue node _ ys (snoc zs z) h =
    let (_, l) = Linked-split memory none none (zs ++ z ∷ []) (node ∷ ys) h.linked in
    let (_, _, a) = Distinct-split (zs ++ z ∷ []) (node ∷ ys) h.distinct in
    let here = All-right (λ x. x ≢ node) zs (z ∷ []) (Apart-Fresh (zs ++ z ∷ []) ys node a) in
    rw (final-snoc none zs z) (
      subst (λ (r : Memory × TaskQueue). Taken ((zs ++ z ∷ []) ++ ys) memory r.0 queue r.1)
        (sym (
          remove_at-prev memory queue node z (first_or ys none) (l.0 ∙ final-snoc none zs z) l.1
            (λ e. here.0 (sym e))))
        (remove_rest ys h))
  where
    remove_rest :
        (ws : List ℕ)
        → Holds memory queue ((zs ++ z ∷ []) ++ node ∷ ws)
        → let r =
            remove_behind
              (set_next memory z (first_or ws none))
              queue
              (some z)
              (first_or ws none) in
          Taken ((zs ++ z ∷ []) ++ ws) memory r.0 queue r.1
    remove_rest [] k = rw append-nil (remove_last memory queue node z zs k)
    remove_rest (y ∷ ws) k = remove_inner memory queue node z zs y ws k

-- `task_queue_remove` of a node from wherever it stands in the row of a queue leaves the other
-- nodes in their order, signals empty exactly if it was the only one, and changes neither a task
-- nor a node that is not left in the row (`Taken`).
pub task_queue_remove-Taken :
    (memory : Memory) (queue : TaskQueue) (node : ℕ) (xs ys : List ℕ)
    → Holds memory queue (xs ++ node ∷ ys)
    → let r = task_queue_remove memory queue node in Taken (xs ++ ys) memory r.0 queue r.1
unfolding task_queue_remove
task_queue_remove-Taken memory queue node xs ys h =
    let (_, l) = Linked-split memory none none xs (node ∷ ys) h.linked in
    subst (λ p. let r = remove_at memory queue node p in Taken (xs ++ ys) memory r.0 queue r.1)
      (sym l.0) (remove_behind-Taken memory queue node xs ys (Snoc-view xs) h)
