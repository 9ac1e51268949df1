-- ===== src/Subgen/Results.antt =====
-- subgen.py: `TaskResult`, and how the requests of `asr` share one and wait for it: the endpoint, its
-- clean-up, and the end of `asr_task_worker`.
pub mod Served
pub mod Requests
use mediahub_configs.Prelude.{
  ℕ, ◌+◌, Bool, true, false, Option, none, some, List, [], ◌∷◌, ◌++◌, if◌then◌else◌, ◌==◌,
}
use mediahub_configs.Prelude.Equality.{Eq}
use mediahub_configs.Prelude.Dict as Dict
use mediahub_configs.Subgen.Queue.{Task, Queue, asr, put, mark_done, empty_queue}

pub record TaskResult (R : Type 0) : Type 0 where
  pub result : Option R
  pub error : Option R
  pub done : Bool

-- What `asr_task_worker` sets in the end, a text or a message.
pub data Answer (R : Type 0) : Type 0 where
  finished failed : R → Answer R

module _ {R : Type 0} where
  abbrev pub new_result : TaskResult R
  new_result = record { result = none; error = none; done = false }

  abbrev pub set_result : R → TaskResult R → TaskResult R
  set_result r t = record { result = some r; error = t.error; done = true }

  abbrev pub set_error : R → TaskResult R → TaskResult R
  set_error r t = record { result = t.result; error = some r; done = true }

  abbrev pub answered : Answer R → TaskResult R → TaskResult R
  answered (finished r) t = set_result r t
  answered (failed r) t = set_error r t

-- The passes that did not raise.
abbrev pub pass_results : {W : Type 0} → List (Option W) → List W
pass_results [] = []
pass_results (none ∷ passes) = pass_results passes
pass_results (some w ∷ passes) = w ∷ pass_results passes

module _ {W R : Type 0} (reconciled : List W → R) (unreconciled : W → R) (all_failed : R) where
  -- Two passes or more are reconciled, one is taken as it is, and with none the request fails.
  unfoldable pub asr_answer : List (Option W) → Answer R
  asr_answer passes = elim (pass_results passes) [
    | [] ↦ failed all_failed
    | w ∷ [] ↦ finished (unreconciled w)
    | w ∷ v ∷ ws ↦ finished (reconciled (w ∷ v ∷ ws))
  ]

-- The objects `TaskResult` have a place in `containers`, the first `created` of them; a task holds
-- the place of its own. `task_results` has them by the id of a task. A task is with a worker until
-- its result is set (`running`), and then until it is marked as done (`ending`). `waiting` has the
-- requests that wait, with the place that they wait for.
pub record Server (P R : Type 0) : Type 0 where
  pub queue : Queue P ℕ
  pub task_results : List (P × ℕ)
  pub containers : ℕ → TaskResult R
  pub created : ℕ
  pub running : List (Task P ℕ)
  pub ending : List (Task P ℕ)
  pub waiting : List (P × ℕ)

abbrev pub asr_task : {P : Type 0} → P → ℕ → Task P ℕ
asr_task task_id c = record { path = task_id; type = asr; content = c }

module _ {P R : Type 0} where
  abbrev pub first_server : Server P R
  first_server = record {
    queue = empty_queue;
    task_results = [];
    containers = λ c. new_result;
    created = 0;
    running = [];
    ending = [];
    waiting = [];
  }

  -- A worker takes a task.
  abbrev pub take_task : Task P ℕ → Queue P ℕ → Server P R → Server P R
  take_task task q s = record s { queue = q; running = task ∷ s.running }

  -- The result is set in the task's own container.
  abbrev pub answer_task :
      Task P ℕ → Answer R → (others : List (Task P ℕ)) → Server P R → Server P R
  answer_task task answer others s = record s {
    containers =
        λ c. if c == task.content then answered answer (s.containers c) else s.containers c;
    running = others;
    ending = task ∷ s.ending;
  }

module _ {P R : Type 0} ⦃e : Eq P⦄ where
  -- The request waits, whether its task is put in or is there already.
  abbrev pub asked : P → ℕ → ℕ → Server P R → Server P R
  asked task_id c now s = record s {
    queue = (put (asr_task task_id c) now s.queue).1;
    waiting = (task_id, c) ∷ s.waiting;
  }

  -- The container of the task's id, or a new one under it.
  abbrev pub with_container : P → Option ℕ → Server P R → ℕ × Server P R
  with_container task_id (some c) s = (c, s)
  with_container task_id none s = (
    s.created,
    record s { task_results = Dict.put task_id s.created s.task_results; created = s.created + 1 },
  )

  unfoldable pub asr_request : P → ℕ → Server P R → Server P R
  unfolding Dict.get
  asr_request task_id now s =
      let (c, opened) = with_container task_id (Dict.get task_id s.task_results) s in
      asked task_id c now opened

  -- The `finally` of a request, which has its result or has waited too long.
  abbrev pub leave : P → (others : List (P × ℕ)) → Server P R → Server P R
  leave task_id others s = record s {
    task_results = Dict.pop task_id s.task_results;
    waiting = others;
  }

  abbrev pub end_task : Task P ℕ → (others : List (Task P ℕ)) → Server P R → Server P R
  end_task task others s = record s { queue = mark_done task s.queue; ending = others }
