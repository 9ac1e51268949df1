-- ===== src/Subgen/Queue/Steps.antt =====
-- The threads' steps on the queue, in any order, and what holds after all of them.
use mediahub_configs.Prelude.{
  ℕ, ◌+◌, ◌≤◌, ◌<◌, ◌≡◌, refl, sym, ap, ◌∙◌, subst, ◌↔◌, true, none, some, List, [], ◌∷◌,
  if◌then◌else◌, map, ltb, arith,
}
use mediahub_configs.Prelude.Equality.{Eq, ◌=?◌}
use mediahub_configs.Subgen.Queue.{
  Task, Entry, Queue, empty_queue, smallest, pop_from, pop, holds, set_add, discard, put, pop,
  register, mark_done, is_active,
}
use mediahub_configs.Subgen.Queue.Counts.{
  count, holds-count, count-set_add, count-discard, path_of, task_path, count-without,
  count-smallest,
}

module _ {P D : Type 0} ⦃e : Eq P⦄ where
  -- How often a path waits: in the heap, or taken off it by a `get` that has not come to its end.
  abbrev pub waiting : P → Queue P D → ℕ
  waiting p q = count p (map path_of q.heap) + count p (map task_path q.taken)

  -- No path is twice in the queue, waiting or in process, and the sets are up to date.
  pub record IsConsistent (q : Queue P D) : Type 0 where
    pub at_most_once : (p : P) → waiting p q + count p q.processing ≤ 1
    pub up_to_date : (p : P) → holds p q.queued ≡ ltb 0 (waiting p q)

  empty_queue-IsConsistent : IsConsistent empty_queue
  empty_queue-IsConsistent = record {
    at_most_once = λ p. omega arith;
    up_to_date = λ p. ground arith;
  }

  put-IsConsistent :
      (task : Task P D) (now : ℕ) (q : Queue P D) → IsConsistent q → IsConsistent (put task now q).1
  unfolding put
  put-IsConsistent task now q c = record {
    at_most_once = λ p. ground (
      arith,
      c.at_most_once p,
      c.up_to_date task.path,
      holds-count task.path q.processing,
      e.beq_iff task.path p,
    );
    up_to_date = λ p. ground (
      arith,
      c.up_to_date p,
      c.up_to_date task.path,
      holds-count p (set_add task.path q.queued),
      holds-count p q.queued,
      count-set_add p task.path q.queued,
      e.beq_iff task.path p,
    );
  }

  pop_from-IsConsistent :
      (heap : List (Entry P D)) (q q' : Queue P D) (task : Task P D)
      → q.heap ≡ heap
      → pop_from heap q ≡ some (task, q')
      → IsConsistent q
      → IsConsistent q'
  unfolding pop_from
  pop_from-IsConsistent [] q q' task h is c = absurd (cc)
  pop_from-IsConsistent (x ∷ xs) q q' task h is c =
      subst IsConsistent (ap (λ o. elim o [ none ↦ q | some r ↦ r.1 ]) is) (record {
        at_most_once = λ p. ground (arith, c.at_most_once p, same p);
        up_to_date = λ p. ground (arith, c.up_to_date p, same p);
      })
    where
      same :
          (p : P)
          → count p (map path_of (smallest x xs).1)
              + (if path_of (smallest x xs).0 =? p then 1 else 0)
            ≡ count p (map path_of q.heap)
      same p = count-smallest p x xs ∙ ap (λ l. count p (map path_of l)) (sym h)

  register-IsConsistent :
      (task : Task P D) (q : Queue P D)
      → 0 < count task.path (map task_path q.taken)
      → IsConsistent q
      → IsConsistent (register task q)
  unfolding register
  register-IsConsistent task q h c = record {
    at_most_once = λ p. ground (
      arith,
      c.at_most_once p,
      c.at_most_once task.path,
      count-without p task.path q.taken h,
      count-set_add p task.path q.processing,
      holds-count task.path q.processing,
      e.beq_iff task.path p,
    );
    up_to_date = λ p. ground (
      arith,
      c.up_to_date p,
      c.at_most_once task.path,
      count-without p task.path q.taken h,
      holds-count p (discard task.path q.queued),
      holds-count p q.queued,
      count-discard p task.path q.queued,
      e.beq_iff task.path p,
    );
  }

  mark_done-IsConsistent :
      (task : Task P D) (q : Queue P D) → IsConsistent q → IsConsistent (mark_done task q)
  unfolding mark_done
  mark_done-IsConsistent task q c = record {
    at_most_once = λ p. ground (arith, c.at_most_once p, count-discard p task.path q.processing);
    up_to_date = λ p. c.up_to_date p;
  }

  -- A step of some thread: `put`, the two halves of `get`, and `mark_done` of a task in process.
  pub data Step : Queue P D → Queue P D → Type 0 where
    puts : (task : Task P D) (now : ℕ) (q : Queue P D) → Step q (put task now q).1
    pops : (task : Task P D) (q q' : Queue P D) → pop q ≡ some (task, q') → Step q q'
    registers :
        (task : Task P D) (q : Queue P D)
        → 0 < count task.path (map task_path q.taken)
        → Step q (register task q)
    finishes :
        (task : Task P D) (q : Queue P D)
        → 0 < count task.path q.processing
        → Step q (mark_done task q)

  pub data Reachable : Queue P D → Type 0 where
    starts : Reachable empty_queue
    steps : (q q' : Queue P D) → Reachable q → Step q q' → Reachable q'

  Step-IsConsistent : (q q' : Queue P D) → Step q q' → IsConsistent q → IsConsistent q'
  unfolding pop
  Step-IsConsistent q q' (puts task now _) c = put-IsConsistent task now q c
  Step-IsConsistent q q' (pops task _ _ is) c = pop_from-IsConsistent q.heap q q' task refl is c
  Step-IsConsistent q q' (registers task _ h) c = register-IsConsistent task q h c
  Step-IsConsistent q q' (finishes task _ h) c = mark_done-IsConsistent task q c

  -- Whatever the threads do, and in whatever order, no path is twice among the tasks that wait and
  -- that are in process, and `_queued` holds the paths that wait.
  pub Reachable-IsConsistent : (q : Queue P D) → Reachable q → IsConsistent q
  Reachable-IsConsistent q starts = empty_queue-IsConsistent
  Reachable-IsConsistent q (steps before _ r s) =
      Step-IsConsistent before q s (Reachable-IsConsistent before r)

  -- In a reachable queue a task is put in exactly if its path neither waits nor is in process, and
  -- either way its path is active afterwards.
  pub put_iff :
      (task : Task P D) (now : ℕ) (q : Queue P D)
      → Reachable q
      → (((put task now q).0 ≡ true) ↔ (waiting task.path q + count task.path q.processing ≡ 0))
        × (is_active task.path (put task now q).1 ≡ true)
  unfolding put is_active
  put_iff task now q r =
      let c = Reachable-IsConsistent q r in
      ground (
        arith,
        c.up_to_date task.path,
        holds-count task.path q.processing,
        holds-count task.path (set_add task.path q.queued),
        count-set_add task.path task.path q.queued,
        e.beq_iff task.path task.path,
      )

  -- A path that is active stays so, whatever is put in.
  pub put-is_active :
      (p : P) (task : Task P D) (now : ℕ) (q : Queue P D)
      → is_active p q ≡ true
      → is_active p (put task now q).1 ≡ true
  unfolding put is_active
  put-is_active p task now q h = ground (
    arith,
    h,
    holds-count p q.queued,
    holds-count p (set_add task.path q.queued),
    count-set_add p task.path q.queued,
    e.beq_iff task.path p,
  )
