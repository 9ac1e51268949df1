-- ===== src/Subgen/ResultsTests.antt =====
-- Two requests for one file, and a third that comes when the first two are gone.
use mediahub_configs.Prelude.{
  ℕ, ◌≡◌, ◌≢◌, refl, Bool, true, false, none, some, List, [], ◌∷◌, All, length,
}
use mediahub_configs.Prelude.Equality.{nat_eq}
use mediahub_configs.Prelude.Dict as Dict
use mediahub_configs.Subgen.Queue.{Queue, get, put, is_active}
use mediahub_configs.Subgen.Results.{
  finished, failed, Server, first_server, asr_task, take_task, answer_task, asr_request, leave,
  asr_answer,
}
use mediahub_configs.Subgen.Results.Served.{IsServed}
use mediahub_configs.Subgen.Results.Requests.{Serves, begins, asks, Serves-IsServed}

abbrev first : Server ℕ ℕ
first = first_server

abbrev one : Server ℕ ℕ
one = asr_request 7 10 first

abbrev two : Server ℕ ℕ
two = asr_request 7 11 one

shares : two.waiting ≡ (7, 0) ∷ (7, 0) ∷ []
unfolding asr_request Dict.get Dict.put
shares = refl

one_task : length two.queue.heap ≡ 1
unfolding asr_request put Dict.get Dict.put
one_task = refl

is_there : is_active 7 one.queue ≡ true → Dict.get 7 one.task_results ≢ none
unfolding asr_request Dict.get Dict.put
is_there active missing = cc

is_free : is_active 7 first.queue ≡ true → Dict.get 7 first.task_results ≢ none
unfolding is_active
is_free active missing = cc

two-Serves : Serves two
two-Serves = asks 7 11 one (asks 7 10 first begins is_free) is_there

Serves-IsServed_example : All (λ w. IsServed two w.1) two.waiting
Serves-IsServed_example = Serves-IsServed two two-Serves

-- The task of the first request has its result, but is not yet marked as done, when the request has
-- left and another one comes: this one waits for a container that nothing will fill.
abbrev working : Queue ℕ ℕ
working = record { heap = []; queued = []; processing = 7 ∷ []; taken = [] }

abbrev answered_once : Server ℕ ℕ
answered_once = answer_task (asr_task 7 0) (finished 99) [] (take_task (asr_task 7 0) working one)

abbrev late : Server ℕ ℕ
late = asr_request 7 12 (leave 7 [] answered_once)

takes_first : get one.queue ≡ some (asr_task 7 0, working)
unfolding asr_request get put Dict.get
takes_first = refl

abbrev outlook : Server ℕ ℕ → List (ℕ × ℕ) × Bool × ℕ × ℕ
outlook s = (s.waiting, (s.containers 1).done, length s.queue.heap, length s.running)

waits_for_nothing : outlook late ≡ ((7, 1) ∷ [], false, 0, 0)
unfolding asr_request put Dict.get Dict.put Dict.pop
waits_for_nothing = refl

one_pass : asr_answer length (λ w. w) 0 (none ∷ some 5 ∷ none ∷ []) ≡ finished 5
unfolding asr_answer
one_pass = refl

three_passes : asr_answer length (λ w. w) 0 (some 4 ∷ some 5 ∷ none ∷ some 6 ∷ []) ≡ finished 3
unfolding asr_answer
three_passes = refl

no_pass : asr_answer length (λ w. w) 0 (none ∷ none ∷ []) ≡ failed 0
unfolding asr_answer
no_pass = refl
