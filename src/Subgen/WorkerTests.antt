-- ===== src/Subgen/WorkerTests.antt =====
-- The end of a detection, and its theorems at a concrete queue.
use mediahub_configs.Prelude.{ℕ, ◌≡◌, refl, true, false, some, [], ◌∷◌, arith}
use mediahub_configs.Prelude.Equality.{nat_eq}
use mediahub_configs.Subgen.Languages.{no_language}
use mediahub_configs.Subgen.Queue.{
  Task, Queue, detect_language, empty_queue, put, pop, register, mark_done, is_active,
}
use mediahub_configs.Subgen.Queue.Steps.{Reachable, starts, steps, puts, pops, registers}
use mediahub_configs.Subgen.Choice.Skip.{Content, detection}
use mediahub_configs.Subgen.Worker.{detect_language_task, next_task_of, finish, delete_model}
use mediahub_configs.Subgen.Worker.Laws.{finish-is_active, delete_model-is_active}

abbrev film : Task ℕ (Content Unit)
film = record { path = 1; type = detect_language; content = detection tt }

abbrev no_tasks : Queue ℕ (Content Unit)
no_tasks = empty_queue

abbrev waits : Queue ℕ (Content Unit)
waits = record {
  heap = record { priority = 0; time = 10; item = film } ∷ [];
  queued = 1 ∷ [];
  processing = [];
  taken = [];
}

abbrev is_taken : Queue ℕ (Content Unit)
is_taken = record { heap = []; queued = 1 ∷ []; processing = []; taken = film ∷ [] }

abbrev in_process : Queue ℕ (Content Unit)
in_process = record { heap = []; queued = []; processing = 1 ∷ []; taken = [] }

waits-Reachable : Reachable waits
unfolding put
waits-Reachable = steps no_tasks waits starts (puts film 10 no_tasks)

film_first : pop waits ≡ some (film, is_taken)
unfolding pop
film_first = refl

in_process-Reachable : Reachable in_process
unfolding register
in_process-Reachable =
    steps is_taken in_process
      (steps waits is_taken waits-Reachable (pops film waits is_taken film_first))
      (registers film is_taken (omega arith))

finish-is_active_example :
    (next_task_of true (some no_language) film ≡ some (detect_language_task true no_language film))
    × ((put (detect_language_task true no_language film) 20 in_process).0 ≡ false)
    × ((put (detect_language_task true no_language film) 20 (mark_done film in_process)).0 ≡ true)
    × (is_active 1 (finish film (some (detect_language_task true no_language film)) 20 in_process)
        ≡ true)
finish-is_active_example =
    finish-is_active film true no_language 20 in_process in_process-Reachable refl (omega arith)

cleans_up : delete_model true 0 no_tasks ≡ true
unfolding delete_model
cleans_up = refl

abbrev direct_tasks : ℕ
direct_tasks = 0

delete_model-is_active_example : (direct_tasks ≡ 0) × ((p : ℕ) → is_active p no_tasks ≡ false)
delete_model-is_active_example = delete_model-is_active true 0 no_tasks starts refl cleans_up
