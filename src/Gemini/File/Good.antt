-- ===== src/Gemini/File/Good.antt =====
-- Batches of consecutive subtitles, and what one request does when Gemini translates each of its
-- lines.
use mediahub_configs.Prelude.{
  ℕ, zero, suc, ◌+◌, ◌≤◌, ◌<◌, ◌≡◌, refl, sym, ap, ◌∙◌, inl, inr, false, Option, none, some, List,
  [], ◌∷◌, ◌++◌, length, get_elem?, get_or, ◌∈◌, All, All-map, All-of_mem, map, arith, ◌==◌, ==_iff,
  subst, Bool-cases, ltb, All-mem,
}
use mediahub_configs.Prelude.Equality.{Eq}
use mediahub_configs.Gemini.Lines.{SubtitleObject, Line, line, directed, process_translated_lines}
use mediahub_configs.Gemini.Lines.Written.{
  IsIndexed, IsAnswer, HasIndex, HaveDistinctIndices, process_translated_lines-IsWritten,
  process_translated_lines-answers, length-process_translated_lines,
}
use mediahub_configs.Gemini.Batch.{World, answered, Translation, returned, attempt, process_batch}
use mediahub_configs.Gemini.Batch.Effect.{attempt-subtitles, attempt-none}
use mediahub_configs.Gemini.File.{subtitle_object}

or_else : {A : Type 0} → A → Option A → A
or_else d none = d
or_else d (some x) = x

get_or-or_else :
    {A : Type 0} (xs : List A) (i : ℕ) (d : A) → get_or xs i d ≡ or_else d (get_elem? xs i)
unfolding or_else
get_or-or_else [] i d = refl
get_or-or_else (x ∷ xs) zero d = refl
get_or-or_else (x ∷ xs) (suc i) d = get_or-or_else xs i d

pub get_or-eq :
    {A : Type 0} (xs ys : List A) (i : ℕ) (d : A)
    → get_elem? xs i ≡ get_elem? ys i
    → get_or xs i d ≡ get_or ys i d
get_or-eq xs ys i d p = get_or-or_else xs i d ∙ ap (or_else d) p ∙ sym (get_or-or_else ys i d)

-- The `n` subtitles from `b` on.
abbrev pub objects : List (List ℕ) → ℕ → ℕ → List SubtitleObject
objects original b zero = []
objects original b (suc n) = subtitle_object original b ∷ objects original (b + 1) n

pub length-objects : (original : List (List ℕ)) (b n : ℕ) → length (objects original b n) ≡ n
length-objects original b zero = refl
length-objects original b (suc n) = omega (arith, length-objects original (b + 1) n)

pub objects_snoc :
    (original : List (List ℕ)) (b n : ℕ)
    → objects original b n ++ subtitle_object original (b + n) ∷ [] ≡ objects original b (suc n)
objects_snoc original b zero = ap (λ k. subtitle_object original k ∷ []) (omega arith)
objects_snoc original b (suc n) =
    ap (λ l. subtitle_object original b ∷ l)
      (subst
        (λ k.
          objects original (b + 1) n ++ subtitle_object original k ∷ []
          ≡ objects original (b + 1) (suc n))
        (omega arith) (objects_snoc original (b + 1) n))

objects-bounds :
    (original : List (List ℕ)) (b n : ℕ)
    → All (λ x. (b ≤ x.index) × (x.index < b + n)) (objects original b n)
objects-bounds original b zero = tt
objects-bounds original b (suc n) =
    (omega arith, All-map _ _ (λ x h. omega arith) _ (objects-bounds original (b + 1) n))

module _ (translation : ℕ → List ℕ → List ℕ) where
  -- The line of an answer for a subtitle.
  abbrev pub translated : SubtitleObject → Line
  translated x = line x.index (translation x.index x.content)

  translated-IsAnswer :
      (batch part : List SubtitleObject)
      → All (λ x. IsIndexed x.index batch) part
      → All (IsAnswer batch) (map translated part)
  translated-IsAnswer batch [] h = tt
  translated-IsAnswer batch (x ∷ part) h = (h.0, translated-IsAnswer batch part h.1)

  without :
      (i : ℕ) (part : List SubtitleObject)
      → All (λ x. i < x.index) part
      → All (λ x. ¬ HasIndex i x) (map translated part)
  without i [] h = tt
  without i (x ∷ part) h = ((λ p. omega arith), without i part h.1)

  translated-HaveDistinctIndices :
      (original : List (List ℕ)) (b n : ℕ)
      → HaveDistinctIndices (map translated (objects original b n))
  translated-HaveDistinctIndices original b zero = tt
  translated-HaveDistinctIndices original b (suc n) = (
    without b (objects original (b + 1) n)
        (All-map _ _ (λ x h. omega arith) _ (objects-bounds original (b + 1) n)),
    translated-HaveDistinctIndices original (b + 1) n,
  )

  translated-mem :
      (original : List (List ℕ)) (b n j : ℕ)
      → b ≤ j
      → j < b + n
      → line j (translation j (get_or original j [])) ∈ map translated (objects original b n)
  translated-mem original b zero j lo hi = absurd (omega arith)
  translated-mem original b (suc n) j lo hi = elim (Bool-cases (j == b)) [
    | inl p ↦ inl (ap (λ k. line k (translation k (get_or original k []))) ((==_iff j b).0 p))
    | inr p ↦ inr (translated-mem original (b + 1) n j (ground arith) (omega arith))
  ]

  length-translated : (part : List SubtitleObject) → length (map translated part) ≡ length part
  length-translated [] = refl
  length-translated (x ∷ part) = omega (arith, length-translated part)

  module _ {K : Type 0} ⦃e : Eq K⦄ (w : World K)
      (answers : (n : ℕ) (key : Option K) (batch : List SubtitleObject)
        → w.reply n key batch ≡ answered (map translated batch)) where
    -- After the first `b` subtitles of the file are translated.
    pub record IsDone (original : List (List ℕ)) (b : ℕ) (subtitles : List (List ℕ)) : Type 0 where
      pub same_length : length subtitles ≡ length original
      pub done :
          (j : ℕ)
          → j < b
          → get_elem? subtitles j
            ≡ some (directed w.bidirectional (translation j (get_or original j [])))
      pub later : (j : ℕ) → b ≤ j → get_elem? subtitles j ≡ get_elem? original j

    module _ (original : List (List ℕ)) (b n : ℕ) (s : Translation K)
        (so_far : IsDone original b s.subtitles) (fits : b + n ≤ length original) where
      abbrev batch : List SubtitleObject
      batch = objects original b n

      abbrev lines : List Line
      lines = map translated batch

      in_range : All (λ x. x.index < length s.subtitles) batch
      in_range =
          All-map _ _ (λ x h. omega (arith, so_far.same_length)) _ (objects-bounds original b n)

      answer :
          ((process_translated_lines w.bidirectional lines batch s.subtitles).0 ≡ false)
          × ((i : ℕ) (content : List ℕ)
              → line i content ∈ lines
              → get_elem? (process_translated_lines w.bidirectional lines batch s.subtitles).1 i
                ≡ some (directed w.bidirectional content))
      answer =
          process_translated_lines-answers w.bidirectional lines batch s.subtitles
            (translated-IsAnswer batch batch (All-of_mem _ batch (λ x m. (x, m, refl))))
            (translated-HaveDistinctIndices original b n) in_range

      succeeds : (attempt w batch s).0 ≡ none
      succeeds =
          attempt-none w batch s lines (answers s.requests s.rotation.current_api_key batch)
            answer.0 (length-translated batch)

      outside :
          (j : ℕ)
          → (b ≤ j → b + n ≤ j)
          → get_elem? (process_translated_lines w.bidirectional lines batch s.subtitles).1 j
            ≡ get_elem? s.subtitles j
      outside j far =
          elim (process_translated_lines-IsWritten w.bidirectional lines batch s.subtitles j) [
            | inl same ↦ same
            | inr ((x, m, p), c) ↦
                let at_x = All-mem _ x batch (objects-bounds original b n) m in absurd (omega arith)
          ]

      pub attempt-IsDone : IsDone original (b + n) (attempt w batch s).1.subtitles
      attempt-IsDone =
          rw
            (attempt-subtitles w batch s lines
              (answers s.requests s.rotation.current_api_key batch))
            (record {
              same_length =
                  length-process_translated_lines w.bidirectional lines batch s.subtitles
                  ∙ so_far.same_length;
              done = λ j h. elim (Bool-cases (ltb j b)) [
                | inl before ↦ outside j (ground arith) ∙ so_far.done j (ground arith)
                | inr after ↦
                    answer.1 j (translation j (get_or original j []))
                      (translated-mem original b n j (ground arith) h)
              ];
              later = λ j h. outside j (λ g. h) ∙ so_far.later j (omega arith);
            })

      -- One request does it.
      pub process_batch_done :
          (fuel retry_num : ℕ)
          → process_batch w (suc fuel) retry_num batch s ≡ some (returned (attempt w batch s).1)
      unfolding process_batch
      process_batch_done fuel retry_num = rw (succeeds, process_batch) refl
