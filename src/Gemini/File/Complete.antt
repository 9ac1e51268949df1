-- ===== src/Gemini/File/Complete.antt =====
-- A file is translated completely when Gemini translates each line.
use mediahub_configs.Prelude.{
  ℕ, zero, suc, ◌+◌, ◌-◌, ◌*◌, ◌≤◌, ◌<◌, ◌≡◌, refl, sym, ap, ◌∙◌, Bool, true, false, Option, none,
  some, List, [], ◌∷◌, ◌++◌, length, get_elem?, get_or, map, arith, subst, if◌then◌else◌, ltb,
}
use mediahub_configs.Prelude.Equality.{Eq}
use mediahub_configs.Gemini.Lines.{SubtitleObject, directed}
use mediahub_configs.Gemini.Batch.{World, answered, returned, attempt, process_batch}
use mediahub_configs.Gemini.File.{
  get_batch_size, Run, Round, ends, fills, sends, next_round, subtitle_object, translate_loop,
  translate_file, translate_with_gemini, written,
}
use mediahub_configs.Gemini.File.Good.{
  objects, length-objects, objects_snoc, get_or-eq, translated, IsDone, attempt-IsDone,
  process_batch_done,
}

module _ (translation : ℕ → List ℕ → List ℕ) {K : Type 0} ⦃e : Eq K⦄ (w : World K)
    (interrupted : ℕ → Bool) (original : List (List ℕ)) (batch_size : ℕ)
    (answers : (n : ℕ) (key : Option K) (batch : List SubtitleObject)
      → w.reply n key batch ≡ answered (map (translated translation) batch))
    (runs_on : (n : ℕ) → interrupted n ≡ false) where
  -- The loop has finished with every subtitle translated.
  pub record Completes (ended : Option (Bool × Run K)) : Type 0 where
    pub run : Run K
    pub finished : ended ≡ some (false, run)
    pub is_done : IsDone translation w answers original (length original) run.state.subtitles

  abbrev loop : ℕ → ℕ → ℕ → List SubtitleObject → Run K → Option (Bool × Run K)
  loop = translate_loop w interrupted (length original) batch_size

  -- `b` subtitles are translated, and the next `n` are in the batch.
  abbrev AllComplete : ℕ → Type 0
  AllComplete fuel =
      (round b n : ℕ) (run : Run K)
      → IsDone translation w answers original b run.state.subtitles
      → b + n ≤ length original
      → 2 * (length original - (b + n)) + n < fuel
      → Completes (loop fuel round (b + n) (objects original b n) run)

  module _ (fuel : ℕ) (rec : AllComplete fuel) (round b n : ℕ) (run : Run K)
      (so_far : IsDone translation w answers original b run.state.subtitles)
      (fits : b + n ≤ length original)
      (enough : 2 * (length original - (b + n)) + n < suc fuel) where
    abbrev batch : List SubtitleObject
    batch = objects original b n

    abbrev this_round : Round
    this_round = next_round (length original) batch_size (interrupted round) (b + n) batch

    is_over : this_round ≡ ends → (n ≡ 0) × (b ≡ length original)
    unfolding next_round
    is_over p = ground (arith, runs_on round, length-objects original b n)

    has_room : this_round ≡ fills → b + n < length original
    unfolding next_round
    has_room p = ground arith

    has_batch : 0 < batch_size → this_round ≡ sends → 0 < n
    unfolding next_round
    has_batch sized p = ground (arith, length-objects original b n)

    grown : batch ++ subtitle_object run.state.subtitles (b + n) ∷ [] ≡ objects original b (suc n)
    grown =
        ap (λ c. batch ++ record { index = b + n; content = c } ∷ [])
          (get_or-eq run.state.subtitles original (b + n) [] (so_far.later (b + n) (omega arith)))
        ∙ objects_snoc original b n

    abbrev sent_run : Run K
    sent_run = record { state = (attempt w batch run.state).1; progress = some (b + n + 1) }

    sent : process_batch w (4 + 4 * length batch) 3 batch run.state ≡ some (returned sent_run.state)
    sent =
        subst (λ k. process_batch w k 3 batch run.state ≡ some (returned sent_run.state))
          (omega arith)
          (process_batch_done translation w answers original b n run.state so_far fits
            (3 + 4 * length batch) 3)

    step :
        (r : Round)
        → 0 < batch_size
        → this_round ≡ r
        → Completes (loop (suc fuel) round (b + n) batch run)
    unfolding translate_loop
    step ends sized p = record {
      run = run;
      finished = rw (p, translate_loop) refl;
      is_done =
          subst (λ k. IsDone translation w answers original k run.state.subtitles) (is_over p).1
            so_far;
    }
    step fills sized p =
        let later =
          rec (round + 1) b (suc n) run so_far (omega (arith, has_room p))
            (omega (arith, has_room p)) in
        let index : b + suc n ≡ b + n + 1 = omega arith in
        record {
          run = later.run;
          finished = rw (p, translate_loop, grown, sym index) later.finished;
          is_done = later.is_done;
        }
    step sends sized p =
        let index : b + n + 0 ≡ b + n = omega arith in
        let later =
          subst (λ k. Completes (loop fuel (round + 1) k [] sent_run)) index
            (rec (round + 1) (b + n) 0 sent_run
              (attempt-IsDone translation w answers original b n run.state so_far fits)
              (omega arith) (omega (arith, has_batch sized p))) in
        record {
          run = later.run;
          finished = rw (p, translate_loop, sent) later.finished;
          is_done = later.is_done;
        }

  loop-Completes : 0 < batch_size → (fuel : ℕ) → AllComplete fuel
  loop-Completes sized zero round b n run so_far fits enough = absurd (omega arith)
  loop-Completes sized (suc fuel) round b n run so_far fits enough =
      step fuel (loop-Completes sized fuel) round b n run so_far fits enough _ sized refl

-- Gemini translates the line `i` with content `c` to `translation i c`, the handler of interrupts is
-- not called, and a key is at hand. Then the list of subtitles that is handed to `srt.compose` is as
-- long as the input, and each of them is the translation of the input's, whatever the size of the
-- batches; the text that `srt.compose` makes of this list is written.
pub translate_with_gemini_complete :
    (translation : ℕ → List ℕ → List ℕ) {K : Type 0} ⦃e : Eq K⦄ (w : World K)
    (interrupted : ℕ → Bool) (compose : List (List ℕ) → List ℕ) (run : Run K) (setting : Option ℕ)
    (key : K)
    → ((n : ℕ) (k : Option K) (batch : List SubtitleObject)
        → w.reply n k batch ≡ answered (map (translated translation) batch))
    → ((n : ℕ) → interrupted n ≡ false)
    → 0 < length run.state.rotation.api_keys
    → run.state.rotation.current_api_key ≡ some key
    → 0 < length run.state.subtitles
    → (output : List (List ℕ)) × (after : Run K) × (translate_with_gemini w interrupted compose true
          true
          (get_batch_size setting)
          run
        ≡ some (written (compose output) after))
      × (length output ≡ length run.state.subtitles)
      × ((i : ℕ)
          → i < length run.state.subtitles
          → get_elem? output i
            ≡ some (directed w.bidirectional (translation i (get_or run.state.subtitles i []))))
unfolding translate_with_gemini translate_file get_batch_size
translate_with_gemini_complete translation w interrupted compose run setting key answers runs_on
      keyed has_key lines =
    let ended = whole_file in
    (
      ended.run.state.subtitles,
      record ended.run { progress = none },
      ground (arith, ended.finished),
      ended.is_done.same_length,
      ended.is_done.done,
    )
  where
    total : ℕ
    total = length run.state.subtitles

    size : ℕ
    size = if ltb total (get_batch_size setting) then total else get_batch_size setting

    sized : 0 < size
    sized = elim setting [ none ↦ ground (arith, lines) | some n ↦ ground (arith, lines) ]

    start : IsDone translation w answers run.state.subtitles 0 run.state.subtitles
    start = record { same_length = refl; done = λ j h. absurd (omega arith); later = λ j h. refl }

    whole_file : Completes translation w interrupted run.state.subtitles size answers runs_on (
        translate_loop w interrupted total size
          (2 * total + 1)
          0
          1
          (subtitle_object run.state.subtitles 0 ∷ [])
          (record run { progress = some 1 }))
    whole_file =
        loop-Completes translation w interrupted run.state.subtitles size answers runs_on sized
          (2 * total + 1) 0 0 1 (record run { progress = some 1 }) start (omega (arith, lines))
          (omega (arith, lines))
