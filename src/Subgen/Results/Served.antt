-- ===== src/Subgen/Results/Served.antt =====
-- A request waits for a container that is filled or that a task will fill.
use mediahub_configs.Prelude.{
  ℕ, ◌≡◌, refl, true, some, List, ◌∷◌, ◌++◌, ◌∈◌, ◌⊎◌, inl, inr, All, All-map, arith, sym, subst,
  ap, mem-append_left, mem-append_right, mem_of_mem_append,
}
use mediahub_configs.Prelude.Equality.{Eq}
use mediahub_configs.Prelude.Dict as Dict
use mediahub_configs.Subgen.Queue.{Task, Queue, get}
use mediahub_configs.Subgen.Queue.Items.{items, get-items, put-items}
use mediahub_configs.Subgen.Results.{
  TaskResult, Answer, finished, failed, answered, Server, asr_task, take_task, answer_task, asked,
}

answered-done : {R : Type 0} (a : Answer R) (t : TaskResult R) → (answered a t).done ≡ true
answered-done (finished r) t = refl
answered-done (failed r) t = refl

module _ {P R : Type 0} where
  -- The container is filled, or belongs to a task that waits or is with a worker.
  abbrev pub IsDone : ℕ → Server P R → Type 0
  IsDone c s = (s.containers c).done ≡ true

  pub record IsHeld (c : ℕ) (s : Server P R) : Type 0 where
    pub task : Task P ℕ
    pub place : task.content ≡ c
    pub member : (task ∈ items s.queue.heap) ⊎ (task ∈ s.running)

  abbrev pub IsServed : Server P R → ℕ → Type 0
  IsServed s c = IsDone c s ⊎ IsHeld c s

  -- What a step must keep so that every container stays served.
  abbrev pub Keeps : Server P R → Server P R → Type 0
  Keeps s s' = (c : ℕ) → IsServed s c → IsServed s' c

  moved :
      (s s' : Server P R)
      → ((c : ℕ) → IsDone c s → IsDone c s')
      → ((t : Task P ℕ) → (t ∈ items s.queue.heap) ⊎ (t ∈ s.running) → IsServed s' t.content)
      → Keeps s s'
  moved s s' done held c (inl d) = inl (done c d)
  moved s s' done held c (inr h) = subst (IsServed s') h.place (held h.task h.member)

  -- The container of the task that ends is filled, and the other tasks stay.
  pub answer_task-Keeps :
      (s : Server P R) (task : Task P ℕ) (a : Answer R) (before after : List (Task P ℕ))
      → s.running ≡ before ++ task ∷ after
      → Keeps s (answer_task task a (before ++ after) s)
  answer_task-Keeps s task a before after h =
      let s' = answer_task task a (before ++ after) s in
      let filled : (c : ℕ) → c ≡ task.content → IsDone c s' =
        λ c e. ground (arith, e, answered-done a (s.containers c)) in
      moved s s' (λ c d. ground (arith, d, answered-done a (s.containers c)))
        (λ t m. elim m [
          | inl x ↦ inr (record { task = t; place = refl; member = inl x })
          | inr x ↦ elim (mem_of_mem_append t before (task ∷ after) (subst (λ l. t ∈ l) h x)) [
            | inl y ↦
                inr (record {
                  task = t;
                  place = refl;
                  member = inr (mem-append_left t before after y);
                })
            | inr (inl y) ↦ inl (filled t.content (ap (λ u. u.content) y))
            | inr (inr y) ↦ inr (record {
              task = t;
              place = refl;
              member = inr (mem-append_right t before after y);
            })
          ]
        ])

module _ {P R : Type 0} ⦃e : Eq P⦄ where
  pub same_tasks :
      (s s' : Server P R)
      → ((c : ℕ) → IsDone c s → IsDone c s')
      → ((t : Task P ℕ) → t ∈ items s.queue.heap → t ∈ items s'.queue.heap)
      → ((t : Task P ℕ) → t ∈ s.running → t ∈ s'.running)
      → Keeps s s'
  same_tasks s s' done heap running = moved s s' done (λ t m. elim m [
    | inl x ↦ inr (record { task = t; place = refl; member = inl (heap t x) })
    | inr x ↦ inr (record { task = t; place = refl; member = inr (running t x) })
  ])

  pub take_task-Keeps :
      (s : Server P R) (task : Task P ℕ) (q : Queue P ℕ)
      → get s.queue ≡ some (task, q)
      → Keeps s (take_task task q s)
  take_task-Keeps s task q h =
      moved s (take_task task q s) (λ c d. d)
        (λ t m. elim m [
          | inl x ↦ elim (get-items s.queue q task t h x) [
            | inl y ↦ inr (record { task = t; place = refl; member = inr (inl y) })
            | inr y ↦ inr (record { task = t; place = refl; member = inl y })
          ]
          | inr x ↦ inr (record { task = t; place = refl; member = inr (inr x) })
        ])

  pub asked-Keeps : (task_id : P) (c now : ℕ) (s : Server P R) → Keeps s (asked task_id c now s)
  asked-Keeps task_id c now s =
      same_tasks s (asked task_id c now s) (λ c d. d)
        (λ t m. put-items (asr_task task_id c) t now s.queue m) (λ t m. m)

  -- What every request that waits, and every one that comes, can count on.
  pub record AreServed (s : Server P R) : Type 0 where
    pub waits : All (λ w. IsServed s w.1) s.waiting
    pub entries : (p : P) (c : ℕ) → Dict.get p s.task_results ≡ some c → IsServed s c

  pub kept :
      (s s' : Server P R)
      → Keeps s s'
      → s'.waiting ≡ s.waiting
      → s'.task_results ≡ s.task_results
      → AreServed s
      → AreServed s'
  kept s s' k same_waiting same_results a = record {
    waits =
        subst (λ l. All (λ w. IsServed s' w.1) l) (sym same_waiting)
          (All-map _ _ (λ w h. k w.1 h) s.waiting a.waits);
    entries = λ p c h. k c (a.entries p c (subst (λ d. Dict.get p d ≡ some c) same_results h));
  }
