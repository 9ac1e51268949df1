-- ===== src/Gemini/Batch/Steps.antt =====
-- The runs of `_process_batch` as a relation, and enough fuel for `process_batch` to give one.
use mediahub_configs.Prelude.{
  ℕ, zero, suc, ◌+◌, ◌-◌, ◌*◌, ◌/◌, ◌≤◌, ◌<◌, ◌≡◌, refl, ◌⊎◌, inl, inr, Option, none, some, List,
  [], ◌∷◌, length, take, drop, arith, subst,
}
use mediahub_configs.Prelude.Equality.{Eq}
use mediahub_configs.Gemini.Keys.{Rotation}
use mediahub_configs.Gemini.Responses.{Response}
use mediahub_configs.Gemini.Lines.{SubtitleObject}
use mediahub_configs.Gemini.Batch.{
  World, Translation, Next, stop, again, halve, Ran, returned, raised, rotate, attempt,
  split_or_retry, after_failure, process_batch,
}

pub length-take : {A : Type 0} (n : ℕ) (xs : List A) → n ≤ length xs → length (take n xs) ≡ n
length-take zero xs h = refl
length-take (suc n) [] h = omega arith
length-take (suc n) (x ∷ xs) h = omega (arith, length-take n xs (omega arith))

pub length-drop : {A : Type 0} (n : ℕ) (xs : List A) → length (drop n xs) ≡ length xs - n
length-drop zero xs = omega arith
length-drop (suc n) [] = omega arith
length-drop (suc n) (x ∷ xs) = omega (arith, length-drop n xs)

Ran-cases :
    {K : Type 0} (ran : Ran K)
    → ((t : Translation K) × (ran ≡ raised t)) ⊎ ((t : Translation K) × (ran ≡ returned t))
Ran-cases (raised t) = inl (t, refl)
Ran-cases (returned t) = inr (t, refl)

module _ {K : Type 0} ⦃e : Eq K⦄ (w : World K) where
  -- A run for the number of retries, the batch, the state before and what comes out.
  pub data Processes : ℕ → List SubtitleObject → Translation K → Ran K → Type 0 where
    succeeds :
        (retry_num : ℕ) (batch : List SubtitleObject) (s : Translation K)
        → (attempt w batch s).0 ≡ none
        → Processes retry_num batch s (returned (attempt w batch s).1)
    stops :
        (retry_num : ℕ) (batch : List SubtitleObject) (s : Translation K)
        (response : Option Response) (keys : Rotation K)
        → (attempt w batch s).0 ≡ some response
        → after_failure w retry_num batch response (attempt w batch s).1 ≡ stop keys
        → Processes retry_num batch s (raised (rotate (attempt w batch s).1 keys))
    retries :
        (retry_num : ℕ) (batch : List SubtitleObject) (s : Translation K)
        (response : Option Response) (keys : Rotation K) (ran : Ran K)
        → (attempt w batch s).0 ≡ some response
        → after_failure w retry_num batch response (attempt w batch s).1 ≡ again keys
        → Processes (retry_num - 1) batch (rotate (attempt w batch s).1 keys) ran
        → Processes retry_num batch s ran
    first_half_raises :
        (retry_num : ℕ) (batch : List SubtitleObject) (s t : Translation K)
        (response : Option Response) (keys : Rotation K)
        → (attempt w batch s).0 ≡ some response
        → after_failure w retry_num batch response (attempt w batch s).1 ≡ halve keys
        → Processes 3 (take (length batch / 2) batch) (rotate (attempt w batch s).1 keys) (raised t)
        → Processes retry_num batch s (raised t)
    halves :
        (retry_num : ℕ) (batch : List SubtitleObject) (s t : Translation K)
        (response : Option Response) (keys : Rotation K) (ran : Ran K)
        → (attempt w batch s).0 ≡ some response
        → after_failure w retry_num batch response (attempt w batch s).1 ≡ halve keys
        → Processes 3
            (take (length batch / 2) batch)
            (rotate (attempt w batch s).1 keys)
            (returned t)
        → Processes 3 (drop (length batch / 2) batch) t ran
        → Processes retry_num batch s ran

  -- What the handler decides leaves retries to take from, or a batch to split.
  abbrev pub Shrinks : ℕ → List SubtitleObject → Next K → Type 0
  Shrinks retry_num batch (stop keys) = Unit
  Shrinks retry_num batch (again keys) = 0 < retry_num
  Shrinks retry_num batch (halve keys) = 1 < length batch

  split_or_retry-Shrinks :
      (retry_num : ℕ) (batch : List SubtitleObject) (keys : Rotation K)
      → Shrinks retry_num batch (split_or_retry w retry_num batch keys)
  unfolding split_or_retry
  split_or_retry-Shrinks retry_num batch keys = ground arith

  pub after_failure-Shrinks :
      (retry_num : ℕ) (batch : List SubtitleObject) (response : Option Response) (s : Translation K)
      → Shrinks retry_num batch (after_failure w retry_num batch response s)
  unfolding after_failure
  after_failure-Shrinks retry_num batch response s =
      ground (arith, split_or_retry-Shrinks retry_num batch)

  -- A run that `process_batch` gives on this fuel.
  pub record Runs (fuel retry_num : ℕ) (batch : List SubtitleObject) (s : Translation K)
      : Type 0 where
    pub ran : Ran K
    pub result : process_batch w fuel retry_num batch s ≡ some ran
    pub run : Processes retry_num batch s ran

  -- The fuel that a batch needs for a number of retries.
  abbrev pub enough : ℕ → List SubtitleObject → ℕ
  enough retry_num batch = retry_num + 4 * length batch

  abbrev pub AllRun : ℕ → Type 0
  AllRun fuel =
      (retry_num : ℕ) (batch : List SubtitleObject) (s : Translation K)
      → enough retry_num batch < fuel
      → Runs fuel retry_num batch s

  module _ (fuel : ℕ) (rec : AllRun fuel) where
    halve-Runs :
        (retry_num : ℕ) (batch : List SubtitleObject) (s : Translation K)
        (response : Option Response) (keys : Rotation K)
        → (attempt w batch s).0 ≡ some response
        → after_failure w retry_num batch response (attempt w batch s).1 ≡ halve keys
        → 1 < length batch
        → enough retry_num batch < suc fuel
        → Runs (suc fuel) retry_num batch s
    unfolding process_batch
    halve-Runs retry_num batch s response keys p q long fits =
        let first =
          rec 3 (take (length batch / 2) batch) (rotate (attempt w batch s).1 keys)
            (omega (arith, length-take (length batch / 2) batch)) in
        elim (Ran-cases first.ran) [
          | inl (t, is) ↦ record {
            ran = raised t;
            result = rw (p, q, first.result, is, process_batch) refl;
            run =
                first_half_raises retry_num batch s t response keys p q
                  (subst (Processes 3 _ _) is first.run);
          }
          | inr (t, is) ↦
              let second =
                rec 3 (drop (length batch / 2) batch) t
                  (omega (arith, length-drop (length batch / 2) batch)) in
              record {
                ran = second.ran;
                result = rw (p, q, first.result, is, process_batch) second.result;
                run =
                    halves retry_num batch s t response keys second.ran p q
                      (subst (Processes 3 _ _) is first.run) second.run;
              }
        ]

    step-Runs :
        (retry_num : ℕ) (batch : List SubtitleObject) (s : Translation K)
        (response : Option Response) (next : Next K)
        → (attempt w batch s).0 ≡ some response
        → after_failure w retry_num batch response (attempt w batch s).1 ≡ next
        → Shrinks retry_num batch next
        → enough retry_num batch < suc fuel
        → Runs (suc fuel) retry_num batch s
    unfolding process_batch
    step-Runs retry_num batch s response (stop keys) p q shrinks fits = record {
      ran = raised (rotate (attempt w batch s).1 keys);
      result = rw (p, q, process_batch) refl;
      run = stops retry_num batch s response keys p q;
    }
    step-Runs retry_num batch s response (again keys) p q shrinks fits =
        let later = rec (retry_num - 1) batch (rotate (attempt w batch s).1 keys) (omega arith) in
        record {
          ran = later.ran;
          result = rw (p, q, process_batch) later.result;
          run = retries retry_num batch s response keys later.ran p q later.run;
        }
    step-Runs retry_num batch s response (halve keys) p q shrinks fits =
        halve-Runs retry_num batch s response keys p q shrinks fits

    suc-Runs :
        (retry_num : ℕ) (batch : List SubtitleObject) (s : Translation K)
        (failure : Option (Option Response))
        → (attempt w batch s).0 ≡ failure
        → enough retry_num batch < suc fuel
        → Runs (suc fuel) retry_num batch s
    unfolding process_batch
    suc-Runs retry_num batch s none p fits = record {
      ran = returned (attempt w batch s).1;
      result = rw (p, process_batch) refl;
      run = succeeds retry_num batch s p;
    }
    suc-Runs retry_num batch s (some response) p fits =
        step-Runs retry_num batch s response _ p refl
          (after_failure-Shrinks retry_num batch response (attempt w batch s).1) fits

  pub process_batch-Runs : (fuel : ℕ) → AllRun fuel
  process_batch-Runs zero retry_num batch s fits = absurd (omega arith)
  process_batch-Runs (suc fuel) retry_num batch s fits =
      suc-Runs fuel (process_batch-Runs fuel) retry_num batch s _ refl fits
