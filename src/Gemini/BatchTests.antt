-- ===== src/Gemini/BatchTests.antt =====
-- Runs of the batches, and their theorems at concrete inputs.
use mediahub_configs.Prelude.{
  ℕ, zero, suc, ◌+◌, ◌*◌, ◌≤◌, ◌<◌, ◌≡◌, refl, Bool, true, false, Option, none, some, List, [], ◌∷◌,
  ◌++◌, map, length, get_elem?, get_or, arith,
}
use mediahub_configs.Prelude.Equality.{nat_eq}
use mediahub_configs.Gemini.Keys.{missing}
use mediahub_configs.Gemini.Responses.{unreadable_body}
use mediahub_configs.Gemini.Lines.{
  SubtitleObject, line, incomplete, Bidirectional, strong_l, directed, process_translated_lines,
}
use mediahub_configs.Gemini.Batch.{
  World, Reply, refused, answered, Translation, Ran, raised, process_batch,
}
use mediahub_configs.Gemini.Batch.Effect.{final, IsKeptOrTranslated, process_batch-ends}
use mediahub_configs.Gemini.File.{Run, Result, written, get_batch_size, translate_with_gemini}
use mediahub_configs.Gemini.File.Good.{translated}
use mediahub_configs.Gemini.File.Ends.{translate_with_gemini_ends}
use mediahub_configs.Gemini.File.Complete.{translate_with_gemini_complete}

abbrev ltr : ℕ → Bidirectional
ltr c = strong_l

abbrev shout : ℕ → List ℕ → List ℕ
shout i content = i ∷ content

abbrev world_of : (ℕ → Option ℕ → List SubtitleObject → Reply) → World ℕ
world_of reply = record {
  reply = reply;
  now = λ n. 100;
  clock = λ n p. 100;
  cases = record { upper = λ t. t; lower = λ t. t };
  bidirectional = ltr;
}

abbrev good_world : World ℕ
good_world = world_of (λ n k batch. answered (map (translated shout) batch))

abbrev dead_world : World ℕ
dead_world = world_of (λ n k batch. refused none)

-- The first request is refused for its rate.
abbrev limited_world : World ℕ
limited_world = world_of (λ n k batch. elim n [
  | zero ↦
      refused (some (record { status_code = 429; body = unreadable_body; retry_after = missing }))
  | suc m ↦ answered (map (translated shout) batch)
])

abbrev three_lines : List (List ℕ)
three_lines = (65 ∷ []) ∷ (66 ∷ []) ∷ (67 ∷ []) ∷ []

abbrev at_start : Translation ℕ
at_start = record {
  rotation = record {
    api_keys = 7 ∷ 8 ∷ [];
    current_api_index = some 0;
    current_api_key = some 7;
    cooldowns = [];
  };
  subtitles = three_lines;
  current_progress = 0;
  requests = 0;
}

abbrev two : List SubtitleObject
two = record { index = 0; content = 65 ∷ [] } ∷ record { index = 1; content = 66 ∷ [] } ∷ []

-- Two subtitles are split at once; the first half then fails four times.
gives_up :
    process_batch dead_world 12 3 two at_start ≡ some (raised (record at_start { requests = 5 }))
unfolding process_batch
gives_up = refl

process_batch-ends_example :
    (ran : Ran ℕ) × (process_batch dead_world 12 3 two at_start ≡ some ran)
    × ((final dead_world ran).requests + 7 ≤ 0 + 3 + 8 * 2)
    × ((i : ℕ) → IsKeptOrTranslated dead_world two i three_lines (final dead_world ran).subtitles)
process_batch-ends_example =
    process_batch-ends dead_world 12 3 two at_start (omega arith) (omega arith)

-- A line without a content ends the loop, and the lines after it are left out.
breaks :
    process_translated_lines ltr (incomplete ∷ line 1 (88 ∷ []) ∷ []) two three_lines
    ≡ (false, three_lines)
unfolding process_translated_lines
breaks = refl

abbrev run_at_start : Run ℕ
run_at_start = record { state = at_start; progress = none }

abbrev never : ℕ → Bool
never n = false

-- A composer that leaves out empty contents and ends each line.
abbrev plain_text : List (List ℕ) → List ℕ
plain_text [] = []
plain_text ([] ∷ contents) = plain_text contents
plain_text ((c ∷ content) ∷ contents) = (c ∷ content) ++ 10 ∷ plain_text contents

abbrev translated_lines : List (List ℕ)
translated_lines = (0 ∷ 65 ∷ []) ∷ (1 ∷ 66 ∷ []) ∷ (2 ∷ 67 ∷ []) ∷ []

abbrev requests_of : Option (Result ℕ) → ℕ
requests_of (some (written output run)) = run.state.requests
requests_of _ = 0

-- Batches of two, of which the first is sent again with another key.
three_requests :
    requests_of (
      translate_with_gemini limited_world never plain_text true true
        (get_batch_size (some 2))
        run_at_start)
    ≡ 3
unfolding translate_with_gemini get_batch_size
three_requests = refl

translate_with_gemini_complete_example :
    (output : List (List ℕ)) × (after : Run ℕ) × (translate_with_gemini good_world never plain_text
        true true
        (get_batch_size (some 2))
        run_at_start
      ≡ some (written (plain_text output) after))
    × (length output ≡ 3)
    × ((i : ℕ)
        → i < 3
        → get_elem? output i ≡ some (directed ltr (shout i (get_or three_lines i []))))
translate_with_gemini_complete_example =
    translate_with_gemini_complete shout good_world never plain_text run_at_start (some 2) 7
      (λ n k batch. refl) (λ n. refl) (omega arith) refl (omega arith)

translate_with_gemini_ends_example :
    (r : Result ℕ) × (translate_with_gemini dead_world never plain_text true true
        (get_batch_size (some 2))
        run_at_start
      ≡ some r)
translate_with_gemini_ends_example =
    translate_with_gemini_ends dead_world never plain_text true true (some 2) run_at_start
