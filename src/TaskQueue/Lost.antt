-- ===== src/TaskQueue/Lost.antt =====
-- task_queue_transfer_all to a queue that is not empty, and a push after it.
use mathlib.Core.Path.{subst}
use mysql_seed.Prelude.{
  ℕ, suc, ◌≡◌, ◌≢◌, refl, sym, ap, ◌∙◌, Option, none, some, List, [], ◌∷◌, ◌++◌,
}
use mysql_seed.Cells.Carry.{All}
use mysql_seed.TaskQueue.{
  TaskNode, TaskQueue, Memory, set_next, set_prev, push_behind, transfer_behind, transfer_from,
  task_queue_transfer_all, task_queue_push,
}
use mysql_seed.TaskQueue.Nodes.{
  All-left, All-right, Linked, Fresh, All-imp, All-both, Apart, Distinct-split, Linked-append,
  SameOutside, Holds, final-snoc, first_or-snoc, first_or-behind, Apart-Fresh,
}
use mysql_seed.TaskQueue.Writes.{
  prev-set_next, next-set_prev, set_next-other, set_prev-other, next-set_next, prev-set_prev,
}
use mysql_seed.TaskQueue.Relink.{Linked-next}
use mysql_seed.TaskQueue.Fifo.{Distinct-snoc}

-- the memory after a transfer of a row from `x` on behind `y`
abbrev joined : Memory → ℕ → ℕ → Memory
joined memory x y = set_next (set_prev memory x (some y)) y (some x)

module _ (memory : Memory) (x y node : ℕ) where
  -- the same after a push of `node`
  abbrev pushed : Memory
  pushed = set_next (set_prev (set_next (joined memory x y) node none) node (some y)) y (some node)

  pushed-same : SameOutside (x ∷ y ∷ node ∷ []) memory pushed
  pushed-same a f =
      let not_x = λ (e : a ≡ x). f.0 (sym e) in
      let not_y = λ (e : a ≡ y). f.1.0 (sym e) in
      let not_node = λ (e : a ≡ node). f.1.1.0 (sym e) in
      set_next-other _ y _ a not_y
      ∙ set_prev-other _ node _ a not_node
      ∙ set_next-other _ node _ a not_node
      ∙ set_next-other _ y _ a not_y
      ∙ set_prev-other _ x _ a not_x

  module _ (y≢x : y ≢ x) (y≢node : y ≢ node) where
    prev_y : (pushed y).prev ≡ (memory y).prev
    prev_y =
        prev-set_next _ y _ y
        ∙ ap (λ (t : TaskNode). t.prev) (set_prev-other _ node _ y y≢node)
        ∙ prev-set_next _ node _ y
        ∙ prev-set_next _ y _ y
        ∙ ap (λ (t : TaskNode). t.prev) (set_prev-other memory x _ y y≢x)

    next_node : (pushed node).next ≡ none
    next_node =
        ap (λ (t : TaskNode). t.next) (set_next-other _ y _ node (λ e. y≢node (sym e)))
        ∙ next-set_prev _ node _ node
        ∙ next-set_next (joined memory x y) node none

    -- the links lead past the nodes that were transferred
    pushed-Linked :
        (ys : List ℕ)
        → Linked memory none (ys ++ y ∷ []) none
        → All (λ z. z ≢ x) ys
        → All (λ z. z ≢ y) ys
        → All (λ z. z ≢ node) ys
        → Linked pushed none ((ys ++ y ∷ []) ++ node ∷ []) none
    pushed-Linked ys l f g h =
        let fresh =
          All-both _ _ (λ z. Fresh z (x ∷ y ∷ node ∷ [])) ys (λ z a b. (λ e. a (sym e), b)) f
            (All-both _ _ (λ z. Fresh z (y ∷ node ∷ [])) ys
              (λ z a b. (λ e. a (sym e), (λ e. b (sym e), tt))) g h) in
        Linked-append pushed none none (ys ++ y ∷ []) (node ∷ [])
          (Linked-next memory pushed none none (some node) ys y
            (All-imp _ _ ys (λ z a. pushed-same z a) fresh) prev_y (next-set_next _ y (some node))
            l)
          (
            prev-set_next _ y _ node ∙ prev-set_prev _ node _ ∙ sym (final-snoc none ys y),
            next_node,
            tt,
          )

module _ (memory : Memory) (queue1 queue2 : TaskQueue) (x y : ℕ) where
  transfer_behind-run :
      (l : Option ℕ)
      → l ≡ some y
      → transfer_behind memory queue1 queue2 x l ≡ (joined memory x y, queue2)
  unfolding transfer_behind
  transfer_behind-run l e = rw (e, transfer_behind) refl

  transfer_from-run :
      (n : Option ℕ)
      → n ≡ some x
      → queue2.last ≡ some y
      → transfer_from memory queue1 queue2 n ≡ (
        joined memory x y,
        record queue1 { head = none; last = none; empty = suc queue1.empty },
        queue2,
      )
  unfolding transfer_from
  transfer_from-run n e f =
      rw (e, transfer_from)
        (ap {B = Memory × TaskQueue × TaskQueue}
          (λ (r : Memory × TaskQueue).
            (r.0, record queue1 { head = none; last = none; empty = suc queue1.empty }, r.1))
          (transfer_behind-run queue2.last f))

push-run :
    (memory : Memory) (queue : TaskQueue) (node y : ℕ) (l : Option ℕ)
    → l ≡ some y
    → push_behind (set_prev (set_next memory node none) node l) queue node l ≡ (
      set_next (set_prev (set_next memory node none) node (some y)) y (some node),
      record queue { last = some node },
    )
unfolding push_behind
push-run memory queue node y l e =
    subst
      (λ (m : Option ℕ). push_behind (set_prev (set_next memory node none) node m) queue node m ≡ (
        set_next (set_prev (set_next memory node none) node (some y)) y (some node),
        record queue { last = some node },
      ))
      (sym e) refl

-- After `task_queue_transfer_all` to a queue that is not empty the last pointer is still that of
-- its own row, so the next push overwrites the link to the nodes that were transferred: the first
-- queue holds nothing and the second its own row and the new node.
pub task_queue_transfer_all-loses :
    (memory : Memory) (queue1 queue2 : TaskQueue) (x y node : ℕ) (xs ys : List ℕ)
    → Holds memory queue1 (x ∷ xs)
    → Holds memory queue2 (ys ++ y ∷ [])
    → Apart (x ∷ xs) (ys ++ y ∷ [])
    → Fresh node (ys ++ y ∷ [])
    → let r = task_queue_transfer_all memory queue1 queue2 in
      let s = task_queue_push r.0 r.2 node in
      Holds s.0 r.1 [] × Holds s.0 s.1 ((ys ++ y ∷ []) ++ node ∷ [])
unfolding task_queue_transfer_all task_queue_push
task_queue_transfer_all-loses memory queue1 queue2 x y node xs ys h k a f =
    let at_y = k.last ∙ final-snoc none ys y in
    rw
      (
        transfer_from-run memory queue1 queue2 x y queue1.head h.head at_y,
        push-run (joined memory x y) queue2 node y queue2.last at_y,
      )
      (
        record { head = refl; last = refl; linked = tt; distinct = tt },
        record {
          head = k.head ∙ first_or-snoc ys y none ∙ sym (first_or-behind ys (node ∷ []) y none);
          last = sym (final-snoc none (ys ++ y ∷ []) node);
          linked =
              pushed-Linked memory x y node (All-right _ ys (y ∷ []) a.0).0
                (All-right _ ys (y ∷ []) f).0 ys k.linked (All-left _ ys (y ∷ []) a.0)
                (Apart-Fresh ys [] y (Distinct-split ys (y ∷ []) k.distinct).2)
                (All-left _ ys (y ∷ []) f);
          distinct = Distinct-snoc (ys ++ y ∷ []) node k.distinct f;
        },
      )
