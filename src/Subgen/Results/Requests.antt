-- ===== src/Subgen/Results/Requests.antt =====
-- Requests, workers and clean-ups in any order.
use mediahub_configs.Prelude.{
  ℕ, ◌≡◌, ◌≢◌, refl, true, false, none, some, List, [], ◌∷◌, ◌++◌, inl, inr, All, All-map, arith,
  subst, Bool-cases, Option-cases,
}
use mediahub_configs.Prelude.Equality.{Eq, ◌=?◌}
use mediahub_configs.Prelude.Dict as Dict
use mediahub_configs.Subgen.Queue.{Task, Queue, get, is_active, mark_done}
use mediahub_configs.Subgen.Queue.Items.{put-items, put-new}
use mediahub_configs.Subgen.Results.{
  Answer, Server, first_server, asr_task, take_task, answer_task, asked, with_container,
  asr_request, leave, end_task,
}
use mediahub_configs.Subgen.Results.Served.{
  IsServed, Keeps, AreServed, same_tasks, take_task-Keeps, answer_task-Keeps, asked-Keeps, kept,
}

All-removed :
    {A : Type 0} (Q : A → Type 0) (before : List A) (x : A) (after : List A)
    → All Q (before ++ x ∷ after)
    → All Q (before ++ after)
All-removed Q [] x after (h, hs) = hs
All-removed Q (b ∷ bs) x after (h, hs) = (h, All-removed Q bs x after hs)

module _ {P R : Type 0} ⦃e : Eq P⦄ where
  -- A step of the server: a request comes, a worker takes a task, sets its result, marks it as done,
  -- or a request leaves. A request does not come for a task that is active and has no container
  -- under its id.
  pub data Serves : Server P R → Type 0 where
    begins : Serves first_server
    asks :
        (task_id : P) (now : ℕ) (s : Server P R)
        → Serves s
        → (is_active task_id s.queue ≡ true → Dict.get task_id s.task_results ≢ none)
        → Serves (asr_request task_id now s)
    takes :
        (s : Server P R) (task : Task P ℕ) (q : Queue P ℕ)
        → Serves s
        → get s.queue ≡ some (task, q)
        → Serves (take_task task q s)
    answers :
        (s : Server P R) (task : Task P ℕ) (answer : Answer R) (before after : List (Task P ℕ))
        → Serves s
        → s.running ≡ before ++ task ∷ after
        → Serves (answer_task task answer (before ++ after) s)
    ends :
        (s : Server P R) (task : Task P ℕ) (before after : List (Task P ℕ))
        → Serves s
        → s.ending ≡ before ++ task ∷ after
        → Serves (end_task task (before ++ after) s)
    leaves :
        (s : Server P R) (task_id : P) (c : ℕ) (before after : List (P × ℕ))
        → Serves s
        → s.waiting ≡ before ++ (task_id, c) ∷ after
        → Serves (leave task_id (before ++ after) s)

  asked-AreServed :
      (task_id : P) (c now : ℕ) (s : Server P R)
      → IsServed s c
      → AreServed s
      → AreServed (asked task_id c now s)
  asked-AreServed task_id c now s h a = record {
    waits = (
      asked-Keeps task_id c now s c h,
      All-map _ _ (λ w k. asked-Keeps task_id c now s w.1 k) s.waiting a.waits,
    );
    entries = λ p d k. asked-Keeps task_id c now s d (a.entries p d k);
  }

  opened-AreServed :
      (task_id : P) (now : ℕ) (s : Server P R)
      → is_active task_id s.queue ≡ false
      → AreServed s
      → AreServed (asked task_id s.created now (with_container task_id none s).1)
  opened-AreServed task_id now s h a =
      let s' = asked task_id s.created now (with_container task_id none s).1 in
      let keeps : Keeps s s' =
        same_tasks s s' (λ c d. d) (λ t m. put-items (asr_task task_id s.created) t now s.queue m)
          (λ t m. m) in
      let new : IsServed s' s.created = inr (record {
        task = asr_task task_id s.created;
        place = refl;
        member = inl (put-new (asr_task task_id s.created) now s.queue h);
      }) in
      record {
        waits = (new, All-map _ _ (λ w k. keeps w.1 k) s.waiting a.waits);
        entries = λ p c k. elim (Bool-cases (task_id =? p)) [
          | inl q ↦
              let same : s.created ≡ c =
                ground (arith, Dict.get-put task_id p s.created s.task_results, k, q) in
              subst (IsServed s') same new
          | inr q ↦ keeps c (
              a.entries p c (ground (arith, Dict.get-put task_id p s.created s.task_results, k, q)))
        ];
      }

  asr_request-AreServed :
      (task_id : P) (now : ℕ) (s : Server P R)
      → (is_active task_id s.queue ≡ true → Dict.get task_id s.task_results ≢ none)
      → AreServed s
      → AreServed (asr_request task_id now s)
  unfolding asr_request
  asr_request-AreServed task_id now s h a = elim (Option-cases (Dict.get task_id s.task_results)) [
    | inr (c, found) ↦ rw found (asked-AreServed task_id c now s (a.entries task_id c found) a)
    | inl missing ↦ elim (Bool-cases (is_active task_id s.queue)) [
      | inl active ↦ absurd (h active missing)
      | inr free ↦ rw missing (opened-AreServed task_id now s free a)
    ]
  ]

  Serves-AreServed : (s : Server P R) → Serves s → AreServed s
  unfolding mark_done Dict.get
  Serves-AreServed s begins = record { waits = tt; entries = λ p c h. absurd (cc h) }
  Serves-AreServed s (asks task_id now before v h) =
      asr_request-AreServed task_id now before h (Serves-AreServed before v)
  Serves-AreServed s (takes before task q v h) =
      kept before s (take_task-Keeps before task q h) refl refl (Serves-AreServed before v)
  Serves-AreServed s (answers old task answer before after v h) =
      kept old s (answer_task-Keeps old task answer before after h) refl refl
        (Serves-AreServed old v)
  Serves-AreServed s (ends old task before after v h) =
      kept old s (same_tasks old s (λ c d. d) (λ t m. m) (λ t m. m)) refl refl
        (Serves-AreServed old v)
  Serves-AreServed s (leaves old task_id c before after v h) =
      let a = Serves-AreServed old v in
      let keeps : Keeps old s = same_tasks old s (λ c d. d) (λ t m. m) (λ t m. m) in
      record {
        waits =
            All-removed (λ w. IsServed s w.1) before (task_id, c) after
              (subst (λ l. All (λ w. IsServed s w.1) l) h
                (All-map _ _ (λ w k. keeps w.1 k) old.waiting a.waits));
        entries = λ p c k.
            keeps c (a.entries p c (ground (arith, Dict.get-pop task_id p old.task_results, k)));
      }

  -- As long as no request comes for a task that is active and has no container under its id, every
  -- request that waits does so for a container that is filled, or that a task which waits in the
  -- queue or is with a worker will fill, whatever the others do.
  pub Serves-IsServed : (s : Server P R) → Serves s → All (λ w. IsServed s w.1) s.waiting
  Serves-IsServed s v = (Serves-AreServed s v).waits
