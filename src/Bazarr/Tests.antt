-- ===== src/Bazarr/Tests.antt =====
-- Runs of bazarr-translate-missing-es.py, and the theorems on it at concrete inputs.
use mediahub_configs.Prelude.{
  ℕ, ◌+◌, ◌≡◌, refl, Bool, true, false, ◌&&◌, Option, none, some, List, [], ◌∷◌, if◌then◌else◌, ltb,
  ◌==◌, All,
}
use mediahub_configs.Prelude.Codes.{codes}
use mediahub_configs.Prelude.Dict.{get, put}
use mediahub_configs.Bazarr.Attempts.{
  Kind, episode, movie, Files, load_attempts, Item, Missing, counted, is_blocked, get_wanted,
  record_failure,
}
use mediahub_configs.Bazarr.Paths.{Subtitle, find_english_external_sub, build_es_target_path}
use mediahub_configs.Bazarr.Errors.{classify, permission_error}
use mediahub_configs.Bazarr.Item.{Result, ok, fail, Outside, process_one}
use mediahub_configs.Bazarr.Item.Wait.{IsOutcome}
use mediahub_configs.Bazarr.Item.Outcome.{process_one_lem, is_same, counts_against}
use mediahub_configs.Bazarr.Run.{completed, World, Run, run_main}
use mediahub_configs.Bazarr.Run.Blocked.{run_main-is_blocked}
use mediahub_configs.Bazarr.Run.Stops.{run_main-IsEnded, IsEnded}

target_of_an_episode :
    build_es_target_path (codes "/data/tv/A/A S01E01.en.hi.srt") false true
    ≡ codes "/mnt/media/tv/A/A S01E01.es.hi.srt"
unfolding build_es_target_path
target_of_an_episode = refl

target_without_language :
    build_es_target_path (codes "/data/movies/B.srt") true false
    ≡ codes "/mnt/media/movies/B.es.forced.srt"
unfolding build_es_target_path
target_without_language = refl

-- The time of a line in the tests is the number of its characters before the bar.
abbrev parse_time : List ℕ → Option ℕ
parse_time [] = some 0
parse_time (x ∷ xs) = elim (parse_time xs) [ none ↦ none | some n ↦ some (n + 1) ]

abbrev is_blank : List ℕ → Bool
is_blank [] = true
is_blank (x ∷ xs) = false

-- An old line on the quota is not looked at, a new one on a file is.
only_new_lines :
    classify parse_time 7
      (codes "/data/a.en.srt")
      (codes "1|rate limited" ∷ codes "12345|PermissionError: /data/a.en.srt" ∷ [])
    ≡ some permission_error
unfolding classify
only_new_lines = refl

abbrev english : Subtitle
english = record { code2 = codes "en"; is_embedded = false; path = codes "/data/a.en.srt" }

abbrev outside : ℕ → Outside
outside code = record {
  detail = some (english ∷ []);
  request_time = 0;
  patch_code = code;
  file_at = λ waited target. if ltb waited 16 then none else some (1 ∷ []);
  log_at = λ waited. [];
}

abbrev spanish : List Missing
spanish = record { code2 = codes "es"; forced = false; hi = false } ∷ []

abbrev item : ℕ → Item
item n = record { id = n; missing_subtitles = spanish }

abbrev no_files : Files
no_files = record { attempts = none; cooldown_until = none }

process_one_lem_example :
    (r : Result) × (g : Files) × (process_one parse_time is_blank episode
        (item 4)
        (outside 500)
        no_files
      ≡ some (r, g))
    × (g.cooldown_until ≡ none)
    × ((k : Kind) (i : ℕ)
        → counted k i (load_attempts g)
          ≡ counted k i (load_attempts no_files)
            + (if counts_against r && is_same episode 4 k i then 1 else 0))
    × IsOutcome parse_time is_blank (item 4) (outside 500) r
process_one_lem_example =
    process_one_lem parse_time is_blank episode (item 4) (outside 500) no_files

-- The request for item 4 is refused; the others are translated.
abbrev world : World
world = record {
  parse_time = parse_time;
  is_blank = is_blank;
  listed = λ kind. item 4 ∷ item 5 ∷ [];
  outside = λ kind x. outside (if x.id == 4 then 500 else 204);
  next_quota_reset = 86400;
}

run_main-IsEnded_example :
    (run : Run) × ((run_main world 0 no_files ≡ some run) × IsEnded world no_files run)
run_main-IsEnded_example = run_main-IsEnded world 0 no_files

abbrev results_of : Option Run → List (Kind × (ℕ × Result))
results_of none = []
results_of (some run) = run.results

results_of_a_run :
    results_of (run_main world 0 no_files)
    ≡ (episode, (4, fail)) ∷ (episode, (5, ok)) ∷ (movie, (4, fail)) ∷ (movie, (5, ok)) ∷ []
unfolding run_main get_wanted get process_one find_english_external_sub classify record_failure
results_of_a_run = refl

-- Item 5 has failed twice before, as an episode.
abbrev two_failures : Files
two_failures = record {
  attempts = some (record { episodes = (5, 2) ∷ []; movies = [] });
  cooldown_until = some 0;
}

abbrev after_two_failures : Run
after_two_failures = record {
  files = record {
    attempts = some (record { episodes = (5, 2) ∷ (4, 1) ∷ []; movies = (4, 1) ∷ [] });
    cooldown_until = some 0;
  };
  results = (episode, (4, fail)) ∷ (movie, (4, fail)) ∷ (movie, (5, ok)) ∷ [];
  consecutive = 0;
  ended = completed;
}

run_after_two_failures : run_main world 0 two_failures ≡ some after_two_failures
unfolding run_main get_wanted get put process_one find_english_external_sub classify record_failure
run_after_two_failures = refl

run_main-is_blocked_example :
    All (λ x. is_blocked x.0 (load_attempts two_failures) x.1.0 ≡ false) after_two_failures.results
run_main-is_blocked_example =
    run_main-is_blocked world 0 two_failures after_two_failures run_after_two_failures
