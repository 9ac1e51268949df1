-- ===== src/Gemini/File/Ends.antt =====
-- `_translate_with_gemini` ends, whatever Gemini and the signals do.
use mediahub_configs.Prelude.{
  ℕ, zero, suc, ◌+◌, ◌-◌, ◌*◌, ◌<◌, ◌≡◌, refl, Bool, true, false, not, Option, none, some, List, [],
  ◌∷◌, ◌++◌, length, ltb, if◌then◌else◌, arith, length-append, Bool-cases, inl, inr,
}
use mediahub_configs.Prelude.Equality.{Eq}
use mediahub_configs.Gemini.Lines.{SubtitleObject}
use mediahub_configs.Gemini.Batch.{World, Ran, returned, raised, process_batch}
use mediahub_configs.Gemini.Batch.Steps.{process_batch-Runs}
use mediahub_configs.Gemini.File.{
  Run, Round, ends, fills, sends, next_round, subtitle_object, translate_loop, result_of, Result,
  translate_file, translate_with_gemini, get_batch_size, is_none, failed, written, no_api_keys,
  keys_rate_limited, no_target_language, no_input_file,
}

module _ {K : Type 0} ⦃e : Eq K⦄ (w : World K) (interrupted : ℕ → Bool) (total batch_size : ℕ) where
  abbrev pub Ends : Option (Bool × Run K) → Type 0
  Ends ended = (r : Bool × Run K) × (ended ≡ some r)

  abbrev loop : ℕ → ℕ → ℕ → List SubtitleObject → Run K → Option (Bool × Run K)
  loop = translate_loop w interrupted total batch_size

  abbrev AllEnd : ℕ → Type 0
  AllEnd fuel =
      (round i : ℕ) (batch : List SubtitleObject) (run : Run K)
      → 2 * (total - i) + length batch < fuel
      → Ends (loop fuel round i batch run)

  module _ (fuel : ℕ) (rec : AllEnd fuel) (round i : ℕ) (batch : List SubtitleObject) (run : Run K)
      (sized : 0 < batch_size) (enough : 2 * (total - i) + length batch < suc fuel) where
    abbrev this_round : Round
    this_round = next_round total batch_size (interrupted round) i batch

    has_room : this_round ≡ fills → i < total
    unfolding next_round
    has_room p = ground arith

    has_batch : this_round ≡ sends → 0 < length batch
    unfolding next_round
    has_batch p = ground (arith, sized)

    after_batch :
        (ran : Ran K)
        → process_batch w (4 + 4 * length batch) 3 batch run.state ≡ some ran
        → this_round ≡ sends
        → Ends (loop (suc fuel) round i batch run)
    unfolding translate_loop
    after_batch (raised s) q p =
        ((true, record { state = s; progress = none }), rw (p, translate_loop, q) refl)
    after_batch (returned s) q p =
        let (r, is) =
          rec (round + 1) i [] (record { state = s; progress = some (i + 1) })
            (omega (arith, has_batch p)) in
        (r, rw (p, translate_loop, q) is)

    step : (r : Round) → this_round ≡ r → Ends (loop (suc fuel) round i batch run)
    unfolding translate_loop
    step ends p = ((false, run), rw (p, translate_loop) refl)
    step fills p =
        let more = subtitle_object run.state.subtitles i ∷ [] in
        let (r, is) =
          rec (round + 1) (i + 1) (batch ++ more) run
            (omega (arith, has_room p, length-append batch more)) in
        (r, rw (p, translate_loop) is)
    step sends p =
        let runs = process_batch-Runs w (4 + 4 * length batch) 3 batch run.state (omega arith) in
        after_batch runs.ran runs.result p

  loop-Ends : 0 < batch_size → (fuel : ℕ) → AllEnd fuel
  loop-Ends sized zero round i batch run enough = absurd (omega arith)
  loop-Ends sized (suc fuel) round i batch run enough =
      step fuel (loop-Ends sized fuel) round i batch run sized enough _ refl

get_batch_size-lt : (setting : Option ℕ) → 0 < get_batch_size setting
unfolding get_batch_size
get_batch_size-lt none = omega arith
get_batch_size-lt (some n) = omega arith

module _ {A : Type 0} where
  abbrev IsSome : Option A → Type 0
  IsSome o = (a : A) × (o ≡ some a)

  if-IsSome : (b : Bool) (x y : Option A) → IsSome x → IsSome y → IsSome (if b then x else y)
  if-IsSome true x y s t = s
  if-IsSome false x y s t = t

module _ {K : Type 0} where
  result_of-IsSome :
      (compose : List (List ℕ) → List ℕ) (ended : Option (Bool × Run K)) (r : Bool × Run K)
      → ended ≡ some r
      → IsSome (result_of compose ended)
  result_of-IsSome compose ended (true, run) p =
      (failed (record run { progress = none }), rw p refl)
  result_of-IsSome compose ended (false, run) p =
      (written (compose run.state.subtitles) (record run { progress = none }), rw p refl)

module _ {K : Type 0} ⦃e : Eq K⦄ where
  translate_file-IsSome :
      (w : World K) (interrupted : ℕ → Bool) (compose : List (List ℕ) → List ℕ) (batch_size : ℕ)
      (run : Run K)
      → 0 < batch_size
      → IsSome (translate_file w interrupted compose batch_size run)
  unfolding translate_file
  translate_file-IsSome w interrupted compose batch_size run sized =
      elim (Bool-cases (ltb 0 (length run.state.subtitles))) [
        | inl e ↦ rw e (by_loop (ground arith))
        | inr e ↦ rw e (failed (record run { progress = none }), refl)
      ]
    where
      total : ℕ
      total = length run.state.subtitles

      size : ℕ
      size = if ltb total batch_size then total else batch_size

      by_loop :
          0 < total
          → IsSome (
              result_of compose (
                translate_loop w interrupted total size
                  (2 * total + 1)
                  0
                  1
                  (subtitle_object run.state.subtitles 0 ∷ [])
                  (record run { progress = some 1 })))
      by_loop long =
          let (r, is) =
            loop-Ends w interrupted total size (ground (arith, long, sized)) (2 * total + 1) 0 1
              (subtitle_object run.state.subtitles 0 ∷ []) (record run { progress = some 1 })
              (omega (arith, long)) in
          result_of-IsSome compose _ r is

-- Whatever Gemini answers and whenever an interrupt comes, `_translate_with_gemini` returns or
-- raises: the fuel of the loop over the file is enough.
pub translate_with_gemini_ends :
    {K : Type 0} ⦃e : Eq K⦄ (w : World K) (interrupted : ℕ → Bool)
    (compose : List (List ℕ) → List ℕ) (target_language input_file : Bool) (setting : Option ℕ)
    (run : Run K)
    → (r : Result K) × (translate_with_gemini w interrupted compose target_language input_file
          (get_batch_size setting)
          run
        ≡ some r)
unfolding translate_with_gemini
translate_with_gemini_ends w interrupted compose target_language input_file setting run =
    if-IsSome (not (ltb 0 (length run.state.rotation.api_keys))) _ _ (no_api_keys, refl)
      (if-IsSome (is_none run.state.rotation.current_api_key) _ _ (keys_rate_limited, refl)
        (if-IsSome (not target_language) _ _ (no_target_language, refl)
          (if-IsSome (not input_file) _ _ (no_input_file, refl)
            (translate_file-IsSome w interrupted compose (get_batch_size setting) run
              (get_batch_size-lt setting)))))
