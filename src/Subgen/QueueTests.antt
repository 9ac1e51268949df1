-- ===== src/Subgen/QueueTests.antt =====
-- Runs of the queue, and its theorems at concrete inputs. Paths are numbers.
use mediahub_configs.Prelude.{ℕ, ◌≡◌, refl, subst, true, false, some, [], ◌∷◌}
use mediahub_configs.Prelude.Equality.{nat_eq}
use mediahub_configs.Subgen.Queue.{
  Task, Queue, asr, transcribe, empty_queue, put, pop, register, is_idle, is_active,
}
use mediahub_configs.Subgen.Queue.Steps.{
  Reachable, starts, steps, puts, pops, IsConsistent, Reachable-IsConsistent,
}

abbrev film : Task ℕ Unit
film = record { path = 1; type = transcribe; content = tt }

abbrev upload : Task ℕ Unit
upload = record { path = 2; type = asr; content = tt }

abbrev one_waits : Queue ℕ Unit
one_waits = record {
  heap = record { priority = 2; time = 10; item = film } ∷ [];
  queued = 1 ∷ [];
  processing = [];
  taken = [];
}

abbrev two_wait : Queue ℕ Unit
two_wait = record {
  heap =
      record { priority = 1; time = 11; item = upload }
      ∷ record { priority = 2; time = 10; item = film }
      ∷ [];
  queued = 2 ∷ 1 ∷ [];
  processing = [];
  taken = [];
}

one_waits-put : (put film 10 empty_queue).1 ≡ one_waits
unfolding put
one_waits-put = refl

two_wait-put : (put upload 11 one_waits).1 ≡ two_wait
unfolding put
two_wait-put = refl

one_waits-Reachable : Reachable one_waits
one_waits-Reachable =
    subst Reachable one_waits-put (steps empty_queue _ starts (puts film 10 empty_queue))

two_wait-Reachable : Reachable two_wait
two_wait-Reachable =
    subst Reachable two_wait-put (steps one_waits _ one_waits-Reachable (puts upload 11 one_waits))

-- The later upload goes first.
abbrev upload_taken : Queue ℕ Unit
upload_taken = record {
  heap = record { priority = 2; time = 10; item = film } ∷ [];
  queued = 2 ∷ 1 ∷ [];
  processing = [];
  taken = upload ∷ [];
}

upload_first : pop two_wait ≡ some (upload, upload_taken)
unfolding pop
upload_first = refl

-- A path that is in process is not put in again.
refused : (put upload 12 (register upload upload_taken)).0 ≡ false
unfolding put register
refused = refl

-- Between the halves of `get` the queue says that it is idle, though a worker has a task.
abbrev film_taken : Queue ℕ Unit
film_taken = record { heap = []; queued = 1 ∷ []; processing = []; taken = film ∷ [] }

film_first : pop one_waits ≡ some (film, film_taken)
unfolding pop
film_first = refl

film_taken-Reachable : Reachable film_taken
film_taken-Reachable =
    steps one_waits film_taken one_waits-Reachable (pops film one_waits film_taken film_first)

idle_too_early :
    Reachable film_taken × (is_idle film_taken ≡ true) × (is_active 1 film_taken ≡ true)
unfolding is_idle is_active
idle_too_early = (film_taken-Reachable, refl, refl)

Reachable-IsConsistent_example : IsConsistent film_taken
Reachable-IsConsistent_example = Reachable-IsConsistent film_taken film_taken-Reachable
