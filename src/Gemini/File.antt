-- ===== src/Gemini/File.antt =====
-- `_translate_with_gemini`: the loop that fills the batches, the progress file and the result, and
-- `_get_batch_size`.
pub mod Good
pub mod Complete
pub mod Ends
use mediahub_configs.Prelude.{
  ℕ, zero, suc, ◌+◌, ◌*◌, max, Bool, true, false, not, ◌&&◌, ◌||◌, Option, none, some, List, [],
  ◌∷◌, ◌++◌, if◌then◌else◌, length, ltb, get_or,
}
use mediahub_configs.Prelude.Equality.{Eq}
use mediahub_configs.Gemini.Keys.{Rotation}
use mediahub_configs.Gemini.Lines.{SubtitleObject}
use mediahub_configs.Gemini.Batch.{World, Translation, Ran, returned, raised, process_batch}

abbrev pub default_gemini_batch_size : ℕ
default_gemini_batch_size = 300

-- `none` if the setting is missing or `int` does not read it; 0 stands for what is below 1.
unfoldable pub get_batch_size : Option ℕ → ℕ
get_batch_size none = default_gemini_batch_size
get_batch_size (some batch_size) = max 1 batch_size

-- The service and the line that the progress file of this input holds.
pub record Run (K : Type 0) : Type 0 where
  pub state : Translation K
  pub progress : Option ℕ

-- What a round of the loop does.
pub data Round : Type 0 where
  ends : Round
  fills : Round
  sends : Round

pub next_round : (total batch_size : ℕ) → (interrupt_flag : Bool) → ℕ → List SubtitleObject → Round
next_round total batch_size interrupt_flag i batch =
    if (ltb i total || ltb 0 (length batch)) && not interrupt_flag
    then if ltb i total && ltb (length batch) batch_size then fills else sends
    else ends

-- The subtitle at `i`. (The list of the original subtitles holds the same objects as the one of the
-- translated ones.)
abbrev pub subtitle_object : List (List ℕ) → ℕ → SubtitleObject
subtitle_object subtitles i = record { index = i; content = get_or subtitles i [] }

module _ {K : Type 0} ⦃e : Eq K⦄ (w : World K) (interrupted : ℕ → Bool) (total batch_size : ℕ) where
  -- The loop, on fuel; `interrupted n` is the flag at its round `n`. The result says if it raises.
  pub translate_loop : ℕ → ℕ → ℕ → List SubtitleObject → Run K → Option (Bool × Run K)
  unfolding next_round process_batch
  translate_loop zero round i batch run = none
  translate_loop (suc fuel) round i batch run =
      elim (next_round total batch_size (interrupted round) i batch) [
        | ends ↦ some (false, run)
        | fills ↦
            translate_loop fuel (round + 1) (i + 1)
              (batch ++ subtitle_object run.state.subtitles i ∷ []) run
        | sends ↦ elim (process_batch w (4 + 4 * length batch) 3 batch run.state) [
          | none ↦ none
          | some ran ↦ elim ran [
            | returned s ↦
                translate_loop fuel (round + 1) i [] (record { state = s; progress = some (i + 1) })
            | raised s ↦ some (true, record { state = s; progress = none })
          ]
        ]
      ]

-- The first four return after a message; `written` gives the text that is written to the output;
-- `failed` raises, and the output, in which nothing is yet, is removed.
pub data Result (K : Type 0) : Type 0 where
  no_api_keys : Result K
  keys_rate_limited : Result K
  no_target_language : Result K
  no_input_file : Result K
  written : List ℕ → Run K → Result K
  failed : Run K → Result K

abbrev pub is_none : {A : Type 0} → Option A → Bool
is_none none = true
is_none (some a) = false

module _ {K : Type 0} where
  -- After the loop the progress file is removed on each way out. `compose` is `srt.compose` for the
  -- times of the file: the text of the subtitles with these contents. It sorts and renumbers them, and
  -- leaves out one whose content is blank or whose times are not in order.
  abbrev pub result_of : (List (List ℕ) → List ℕ) → Option (Bool × Run K) → Option (Result K)
  result_of compose none = none
  result_of compose (some (true, run)) = some (failed (record run { progress = none }))
  result_of compose (some (false, run)) =
      some (written (compose run.state.subtitles) (record run { progress = none }))

module _ {K : Type 0} ⦃e : Eq K⦄ (w : World K) (interrupted : ℕ → Bool)
    (compose : List (List ℕ) → List ℕ) where
  -- The subtitles of the file, which the state holds; without any, reading the first one raises.
  pub translate_file : (batch_size : ℕ) → Run K → Option (Result K)
  unfolding translate_loop
  translate_file batch_size run =
      let total = length run.state.subtitles in
      if ltb 0 total
      then result_of compose (
          translate_loop w interrupted total (if ltb total batch_size then total else batch_size)
            (2 * total + 1) 0 1 (subtitle_object run.state.subtitles 0 ∷ [])
            (record run { progress = some 1 }))
      else some (failed (record run { progress = none }))

  unfoldable pub translate_with_gemini :
      (target_language input_file : Bool) → (batch_size : ℕ) → Run K → Option (Result K)
  unfolding translate_file
  translate_with_gemini target_language input_file batch_size run =
      if not (ltb 0 (length run.state.rotation.api_keys))
      then some no_api_keys
      else if is_none run.state.rotation.current_api_key
      then some keys_rate_limited
      else if not target_language
      then some no_target_language
      else if not input_file
      then some no_input_file
      else translate_file batch_size run
