-- ===== src/Gemini/Batch/Effect.antt =====
-- What a run of `_process_batch` does: how often it asks, and what it writes.
use mediahub_configs.Prelude.{
  ℕ, ◌+◌, ◌-◌, ◌*◌, ◌/◌, ◌≤◌, ◌<◌, ◌≡◌, refl, sym, ◌∙◌, subst, ◌⊎◌, inl, inr, false, Option, none,
  some, List, length, ◌∈◌, take, drop, arith, get_elem?, take-append-drop, mem-append_left,
  mem-append_right,
}
use mediahub_configs.Prelude.Equality.{Eq}
use mediahub_configs.Gemini.Lines.{SubtitleObject, Line, line, directed, process_translated_lines}
use mediahub_configs.Gemini.Lines.Written.{IsIndexed, process_translated_lines-IsWritten}
use mediahub_configs.Gemini.Batch.{
  World, Reply, answered, refused, Translation, Ran, returned, raised, attempt, process_batch,
}
use mediahub_configs.Gemini.Batch.Steps.{
  Processes, succeeds, stops, retries, first_half_raises, halves, Shrinks, after_failure-Shrinks,
  process_batch-Runs, enough, length-take, length-drop,
}

module _ {K : Type 0} ⦃e : Eq K⦄ (w : World K) where
  -- The state in which it returns or raises.
  abbrev pub final : Ran K → Translation K
  final (returned s) = s
  final (raised s) = s

  attempt-requests :
      (batch : List SubtitleObject) (s : Translation K)
      → (attempt w batch s).1.requests ≡ s.requests + 1
  unfolding attempt
  attempt-requests batch s = ground arith

  Processes-requests :
      (retry_num : ℕ) (batch : List SubtitleObject) (s : Translation K) (ran : Ran K)
      → Processes w retry_num batch s ran
      → 0 < length batch
      → (final ran).requests + 7 ≤ s.requests + retry_num + 8 * length batch
  Processes-requests retry_num batch s ran (succeeds _ _ _ p) long =
      omega (arith, attempt-requests batch s)
  Processes-requests retry_num batch s ran (stops _ _ _ response keys p q) long =
      omega (arith, attempt-requests batch s)
  Processes-requests retry_num batch s ran (retries _ _ _ response keys _ p q later) long =
      let left =
        subst (Shrinks w retry_num batch) q
          (after_failure-Shrinks w retry_num batch response (attempt w batch s).1) in
      omega (
        arith,
        left,
        attempt-requests batch s,
        Processes-requests (retry_num - 1) batch _ ran later long,
      )
  Processes-requests retry_num batch s ran (first_half_raises _ _ _ t response keys p q first)
        long =
      let split =
        subst (Shrinks w retry_num batch) q
          (after_failure-Shrinks w retry_num batch response (attempt w batch s).1) in
      let left = length-take (length batch / 2) batch (omega arith) in
      omega (
        arith,
        split,
        left,
        attempt-requests batch s,
        Processes-requests 3 (take (length batch / 2) batch) _ (raised t) first (omega arith),
      )
  Processes-requests retry_num batch s ran (halves _ _ _ t response keys _ p q first second) long =
      let split =
        subst (Shrinks w retry_num batch) q
          (after_failure-Shrinks w retry_num batch response (attempt w batch s).1) in
      let left = length-take (length batch / 2) batch (omega arith) in
      let right = length-drop (length batch / 2) batch in
      omega (
        arith,
        split,
        left,
        right,
        attempt-requests batch s,
        Processes-requests 3 (take (length batch / 2) batch) _ (returned t) first (omega arith),
        Processes-requests 3 (drop (length batch / 2) batch) t ran second (omega arith),
      )

  -- The content is that of a line for `i` in an answer of Gemini.
  pub record FromAnswer (i : ℕ) (content : Option (List ℕ)) : Type 0 where
    pub request : ℕ
    pub api_key : Option K
    pub batch : List SubtitleObject
    pub lines : List Line
    pub answer : w.reply request api_key batch ≡ answered lines
    pub translation : List ℕ
    pub member : line i translation ∈ lines
    pub is_translation : content ≡ some (directed w.bidirectional translation)

  -- The content at `i` is as before, or the batch has `i` and it is an answer's.
  abbrev pub IsKeptOrTranslated : List SubtitleObject → ℕ → List (List ℕ) → List (List ℕ) → Type 0
  IsKeptOrTranslated batch i before after =
      (get_elem? after i ≡ get_elem? before i)
      ⊎ (IsIndexed i batch × FromAnswer i (get_elem? after i))

  then_also :
      (part rest batch : List SubtitleObject) (i : ℕ) (x y z : List (List ℕ))
      → (IsIndexed i part → IsIndexed i batch)
      → (IsIndexed i rest → IsIndexed i batch)
      → IsKeptOrTranslated part i x y
      → IsKeptOrTranslated rest i y z
      → IsKeptOrTranslated batch i x z
  then_also part rest batch i x y z f g first (inr (m, answer)) = inr (g m, answer)
  then_also part rest batch i x y z f g (inl p) (inl q) = inl (q ∙ p)
  then_also part rest batch i x y z f g (inr (m, answer)) (inl q) =
      inr (f m, subst (FromAnswer i) (sym q) answer)

  IsIndexed-take :
      (n i : ℕ) (batch : List SubtitleObject) → IsIndexed i (take n batch) → IsIndexed i batch
  IsIndexed-take n i batch (x, m, p) =
      (x, subst (λ l. x ∈ l) (take-append-drop n batch) (mem-append_left x _ (drop n batch) m), p)

  IsIndexed-drop :
      (n i : ℕ) (batch : List SubtitleObject) → IsIndexed i (drop n batch) → IsIndexed i batch
  IsIndexed-drop n i batch (x, m, p) =
      (x, subst (λ l. x ∈ l) (take-append-drop n batch) (mem-append_right x (take n batch) _ m), p)

  pub attempt-subtitles :
      (batch : List SubtitleObject) (s : Translation K) (lines : List Line)
      → w.reply s.requests s.rotation.current_api_key batch ≡ answered lines
      → (attempt w batch s).1.subtitles
        ≡ (process_translated_lines w.bidirectional lines batch s.subtitles).1
  unfolding attempt
  attempt-subtitles batch s lines p = ground arith

  -- An answer that the loop takes, with as many lines as were asked for, is a success.
  pub attempt-none :
      (batch : List SubtitleObject) (s : Translation K) (lines : List Line)
      → w.reply s.requests s.rotation.current_api_key batch ≡ answered lines
      → (process_translated_lines w.bidirectional lines batch s.subtitles).0 ≡ false
      → length lines ≡ length batch
      → (attempt w batch s).0 ≡ none
  unfolding attempt
  attempt-none batch s lines p q r = ground arith

  attempt-IsKeptOrTranslated :
      (batch : List SubtitleObject) (s : Translation K) (i : ℕ)
      → IsKeptOrTranslated batch i s.subtitles (attempt w batch s).1.subtitles
  unfolding attempt
  attempt-IsKeptOrTranslated batch s i =
      of_reply (w.reply s.requests s.rotation.current_api_key batch) refl
    where
      of_reply :
          (reply : Reply)
          → w.reply s.requests s.rotation.current_api_key batch ≡ reply
          → IsKeptOrTranslated batch i s.subtitles (attempt w batch s).1.subtitles
      of_reply (refused response) p = rw (p, attempt) (inl refl)
      of_reply (answered lines) p =
          rw (attempt-subtitles batch s lines p)
            (elim (process_translated_lines-IsWritten w.bidirectional lines batch s.subtitles i) [
              | inl same ↦ inl same
              | inr (x, (c, m, q)) ↦ inr (
                x,
                record {
                  request = s.requests;
                  api_key = s.rotation.current_api_key;
                  batch = batch;
                  lines = lines;
                  answer = p;
                  translation = c;
                  member = m;
                  is_translation = q;
                },
              )
            ])

  Processes-IsKeptOrTranslated :
      (retry_num : ℕ) (batch : List SubtitleObject) (s : Translation K) (ran : Ran K)
      → Processes w retry_num batch s ran
      → (i : ℕ) → IsKeptOrTranslated batch i s.subtitles (final ran).subtitles
  Processes-IsKeptOrTranslated retry_num batch s ran (succeeds _ _ _ p) i =
      attempt-IsKeptOrTranslated batch s i
  Processes-IsKeptOrTranslated retry_num batch s ran (stops _ _ _ response keys p q) i =
      attempt-IsKeptOrTranslated batch s i
  Processes-IsKeptOrTranslated retry_num batch s ran (retries _ _ _ response keys _ p q later) i =
      then_also batch batch batch i s.subtitles _ _ (λ m. m) (λ m. m)
        (attempt-IsKeptOrTranslated batch s i)
        (Processes-IsKeptOrTranslated (retry_num - 1) batch _ ran later i)
  Processes-IsKeptOrTranslated retry_num batch s ran
        (first_half_raises _ _ _ t response keys p q first) i =
      let n = length batch / 2 in
      then_also batch (take n batch) batch i s.subtitles _ _ (λ m. m) (IsIndexed-take n i batch)
        (attempt-IsKeptOrTranslated batch s i)
        (Processes-IsKeptOrTranslated 3 (take n batch) _ (raised t) first i)
  Processes-IsKeptOrTranslated retry_num batch s ran
        (halves _ _ _ t response keys _ p q first second) i =
      let n = length batch / 2 in
      then_also batch batch batch i s.subtitles _ _ (λ m. m) (λ m. m)
        (attempt-IsKeptOrTranslated batch s i)
        (then_also (take n batch) (drop n batch) batch i _ _ _ (IsIndexed-take n i batch)
          (IsIndexed-drop n i batch)
          (Processes-IsKeptOrTranslated 3 (take n batch) _ (returned t) first i)
          (Processes-IsKeptOrTranslated 3 (drop n batch) t ran second i))

  -- `_process_batch` ends, also if Gemini fails again and again: for a batch of n ≥ 1 subtitles and
  -- r retries it returns or raises after at most 8 n + r - 7 requests, and any fuel above 4 n + r is
  -- enough for it. Whatever Gemini answers, a
  -- content is only changed at an index of the batch, and there to an answer's line for this index.
  pub process_batch-ends :
      (fuel retry_num : ℕ) (batch : List SubtitleObject) (s : Translation K)
      → 0 < length batch
      → enough w retry_num batch < fuel
      → (ran : Ran K) × (process_batch w fuel retry_num batch s ≡ some ran)
        × ((final ran).requests + 7 ≤ s.requests + retry_num + 8 * length batch)
        × ((i : ℕ) → IsKeptOrTranslated batch i s.subtitles (final ran).subtitles)
  process_batch-ends fuel retry_num batch s long fits =
      let runs = process_batch-Runs w fuel retry_num batch s fits in
      (
        runs.ran,
        runs.result,
        Processes-requests retry_num batch s runs.ran runs.run long,
        Processes-IsKeptOrTranslated retry_num batch s runs.ran runs.run,
      )
