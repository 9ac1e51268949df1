-- ===== src/Subgen/Worker.antt =====
-- subgen.py: what `transcription_worker` does with the queue when a task ends, the task that
-- `detect_language_task` returns, and when `delete_model` and `perform_model_cleanup` act.
pub mod Laws
use mediahub_configs.Prelude.{ℕ, Bool, true, false, ◌&&◌, Option, none, some, ◌==◌}
use mediahub_configs.Prelude.Equality.{Eq}
use mediahub_configs.Subgen.Languages.{Language}
use mediahub_configs.Subgen.Queue.{
  Task, Queue, detect_language, asr, transcribe, put, mark_done, is_idle,
}
use mediahub_configs.Subgen.Choice.Skip.{Content, detection, transcription}

abbrev pub task_kwargs_of : {E : Type 0} → Content E → E
task_kwargs_of (detection task_kwargs) = task_kwargs
task_kwargs_of (transcription translates language tracks task_kwargs) = task_kwargs

-- The transcription for the language that Whisper has detected, NONE if it failed; the arguments of
-- the detection are carried over.
unfoldable pub detect_language_task :
    {P E : Type 0} → Bool → Language → Task P (Content E) → Task P (Content E)
detect_language_task translates detected_language task = record {
  path = task.path;
  type = transcribe;
  content = transcription translates detected_language none (task_kwargs_of task.content);
}

module _ {P E : Type 0} ⦃e : Eq P⦄ where
  -- The task that a worker queues after this one: there is one only if it is the detection for a
  -- file of the library, not for an upload, and gives a language.
  unfoldable pub next_task_of :
      Bool → Option Language → Task P (Content E) → Option (Task P (Content E))
  unfolding detect_language_task
  next_task_of translates none task = none
  next_task_of translates (some detected_language) task = elim task.type [
    | detect_language ↦ some (detect_language_task translates detected_language task)
    | asr ↦ none
    | transcribe ↦ none
  ]

  -- The `finally`: only after `mark_done` the next task can be put in.
  unfoldable pub finish :
      Task P (Content E)
      → Option (Task P (Content E))
      → ℕ
      → Queue P (Content E)
      → Queue P (Content E)
  unfolding mark_done put
  finish task none now q = mark_done task q
  finish task (some next_task) now q = (put next_task now (mark_done task q)).1

  -- Whether a cleanup is scheduled, and whether it then unloads the model.
  unfoldable pub system_is_idle : (active_direct_tasks : ℕ) → Queue P (Content E) → Bool
  unfolding is_idle
  system_is_idle active_direct_tasks q = is_idle q && (active_direct_tasks == 0)

  unfoldable pub delete_model : (clear_vram_on_complete : Bool) → ℕ → Queue P (Content E) → Bool
  unfolding system_is_idle
  delete_model clear_vram_on_complete active_direct_tasks q =
      clear_vram_on_complete && system_is_idle active_direct_tasks q
