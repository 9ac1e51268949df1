-- ===== src/Subgen/Worker/Laws.antt =====
-- The transcription after a detection gets into the queue.
use mediahub_configs.Prelude.{
  ℕ, ◌+◌, ◌<◌, ◌≡◌, refl, sym, subst, Bool, true, false, Option, none, some, [], arith, Bool-cases,
  inl, inr,
}
use mediahub_configs.Prelude.Equality.{Eq}
use mediahub_configs.Subgen.Languages.{Language}
use mediahub_configs.Subgen.Queue.{Task, Queue, detect_language, put, mark_done, is_active, discard}
use mediahub_configs.Subgen.Queue.Counts.{count, count-discard}
use mediahub_configs.Subgen.Queue.Steps.{
  Reachable, steps, puts, finishes, Reachable-IsConsistent, put_iff, waiting,
}
use mediahub_configs.Subgen.Queue.Order.{is_idle-is_active}
use mediahub_configs.Subgen.Choice.Skip.{Content}
use mediahub_configs.Subgen.Worker.{
  detect_language_task, next_task_of, finish, delete_model, system_is_idle,
}

module _ {P E : Type 0} ⦃e : Eq P⦄ where
  -- What a worker does to the queue at the end of a task in process is one or two steps.
  finish-Reachable :
      (task : Task P (Content E)) (next : Option (Task P (Content E))) (now : ℕ)
      (q : Queue P (Content E))
      → 0 < count task.path q.processing
      → Reachable q
      → Reachable (finish task next now q)
  unfolding finish
  finish-Reachable task none now q h r = steps q _ r (finishes task q h)
  finish-Reachable task (some next) now q h r =
      steps (mark_done task q) _ (steps q _ r (finishes task q h))
        (puts next now (mark_done task q))

  -- A task with the path of one in process is refused, and taken after `mark_done`.
  put_in_process :
      (task next : Task P (Content E)) (now : ℕ) (q : Queue P (Content E))
      → Reachable q
      → next.path ≡ task.path
      → 0 < count task.path q.processing
      → (put next now q).0 ≡ false
  put_in_process task next now q r same h =
      let taken = (put_iff next now q r).0 in
      let here = subst (λ p. 0 < count p q.processing) (sym same) h in
      elim (Bool-cases (put next now q).0) [
        | inl e ↦ absurd (omega (arith, taken.0 e, here))
        | inr e ↦ e
      ]

  put-mark_done :
      (task next : Task P (Content E)) (now : ℕ) (q : Queue P (Content E))
      → Reachable q
      → next.path ≡ task.path
      → 0 < count task.path q.processing
      → (put next now (mark_done task q)).0 ≡ true
  unfolding mark_done
  put-mark_done task next now q r same h =
      let taken = (put_iff next now (mark_done task q) (steps q _ r (finishes task q h))).0 in
      let c = Reachable-IsConsistent q r in
      taken.1 (
        subst (λ p. waiting p q + count p (discard task.path q.processing) ≡ 0) (sym same)
          (ground (
            arith,
            c.at_most_once task.path,
            count-discard task.path task.path q.processing,
            e.beq_iff task.path task.path,
          )))

  -- A detection that ends, in a reachable queue in which its path is in process, leaves the path
  -- active with the transcription that follows; put in before `mark_done`, that would be refused.
  pub finish-is_active :
      (task : Task P (Content E)) (translates : Bool) (language : Language) (now : ℕ)
      (q : Queue P (Content E))
      → Reachable q
      → task.type ≡ detect_language
      → 0 < count task.path q.processing
      → let next = detect_language_task translates language task in
        (next_task_of translates (some language) task ≡ some next)
        × ((put next now q).0 ≡ false)
        × ((put next now (mark_done task q)).0 ≡ true)
        × (is_active task.path (finish task (some next) now q) ≡ true)
  unfolding next_task_of finish mark_done detect_language_task
  finish-is_active task translates language now q r detects h =
      let next = detect_language_task translates language task in
      (
        rw (detects, next_task_of) refl,
        put_in_process task next now q r refl h,
        put-mark_done task next now q r refl h,
        (put_iff next now (mark_done task q) (steps q _ r (finishes task q h))).1,
      )

  -- The cleanup is scheduled only if nothing is active and no direct request runs, unless a worker
  -- is inside `get`.
  pub delete_model-is_active :
      (clear_vram_on_complete : Bool) (active_direct_tasks : ℕ) (q : Queue P (Content E))
      → Reachable q
      → q.taken ≡ []
      → delete_model clear_vram_on_complete active_direct_tasks q ≡ true
      → (active_direct_tasks ≡ 0) × ((p : P) → is_active p q ≡ false)
  unfolding delete_model system_is_idle
  delete_model-is_active clears n q r none_taken h =
      (ground arith, λ p. is_idle-is_active q r (ground arith) none_taken p)
