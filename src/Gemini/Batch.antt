-- ===== src/Gemini/Batch.antt =====
-- `_process_batch`: one request for a batch of subtitles, and what is tried when it fails.
pub mod Steps
pub mod Effect
use mediahub_configs.Prelude.{
  ℕ, zero, suc, ◌+◌, ◌-◌, ◌/◌, Bool, true, false, Option, none, some, List, [], ◌∷◌, if◌then◌else◌,
  length, ltb, ◌==◌, take, drop,
}
use mediahub_configs.Prelude.Equality.{Eq}
use mediahub_configs.Gemini.Keys.{
  Rotation, Handled, rotated, all_rate_limited, handle_rate_limited_key, RetryAfter, missing,
}
use mediahub_configs.Gemini.Responses.{Response, Cases, is_rate_limited_response}
use mediahub_configs.Gemini.Lines.{SubtitleObject, Line, Bidirectional, process_translated_lines}

-- The request raises, with the exception's response if it has one, or its text is read as lines.
pub data Reply : Type 0 where
  refused : Option Response → Reply
  answered : List Line → Reply

-- What is outside: Gemini, of which each request is numbered, the clock when request `n` has
-- failed and when the keys are then looked at, and the Unicode tables.
pub record World (K : Type 0) : Type 0 where
  pub reply : ℕ → Option K → List SubtitleObject → Reply
  pub now : ℕ → ℕ
  pub clock : ℕ → ℕ → ℕ
  pub cases : Cases
  pub bidirectional : ℕ → Bidirectional

-- The service while it translates: its keys, the contents of the subtitles, which the original list
-- and the translated one share (`copy` copies the list only), its progress, and the number of
-- requests so far.
pub record Translation (K : Type 0) : Type 0 where
  pub rotation : Rotation K
  pub subtitles : List (List ℕ)
  pub current_progress : ℕ
  pub requests : ℕ

-- What the handler does, with the keys that it leaves.
pub data Next (K : Type 0) : Type 0 where
  stop : Rotation K → Next K
  again : Rotation K → Next K
  halve : Rotation K → Next K

-- `_process_batch` returns, having cleared the batch, or raises, and leaves the batch as it is.
pub data Ran (K : Type 0) : Type 0 where
  returned : Translation K → Ran K
  raised : Translation K → Ran K

module _ {K : Type 0} where
  abbrev pub rotate : Translation K → Rotation K → Translation K
  rotate s keys = record s { rotation = keys }

module _ {K : Type 0} ⦃e : Eq K⦄ (w : World K) where
  -- The body of the `try`: `some` is the response of the exception that ends it.
  pub attempt : List SubtitleObject → Translation K → Option (Option Response) × Translation K
  unfolding process_translated_lines
  attempt batch s = elim (w.reply s.requests s.rotation.current_api_key batch) [
    | refused response ↦ (some response, record s { requests = s.requests + 1 })
    | answered lines ↦
        let done = process_translated_lines w.bidirectional lines batch s.subtitles in
        let written = record s { requests = s.requests + 1; subtitles = done.1 } in
        let counted = record written { current_progress = s.current_progress + length lines } in
        if done.0
        then (some none, written)
        else if length lines == length batch
        then (none, counted)
        else (some none, counted)
  ]

  -- A batch is split while it can be, else sent again while retries are left.
  pub split_or_retry : ℕ → List SubtitleObject → Rotation K → Next K
  split_or_retry retry_num batch keys =
      if ltb 1 (length batch) then halve keys else if ltb 0 retry_num then again keys else stop keys

  abbrev pub retry_after_of : Option Response → RetryAfter
  retry_after_of none = missing
  retry_after_of (some response) = response.retry_after

  -- The `except`: after a rate limit another key is taken.
  pub after_failure : ℕ → List SubtitleObject → Option Response → Translation K → Next K
  unfolding is_rate_limited_response handle_rate_limited_key split_or_retry
  after_failure retry_num batch response s = elim (is_rate_limited_response w.cases response) [
    | none ↦ stop s.rotation
    | some false ↦ split_or_retry retry_num batch s.rotation
    | some true ↦
        elim (handle_rate_limited_key (w.now s.requests) (w.clock s.requests)
          (retry_after_of response) s.rotation) [
            | all_rate_limited keys ↦ stop keys
            | rotated keys ↦
                if ltb 0 retry_num then again keys else split_or_retry retry_num batch keys
          ]
  ]

  -- On fuel; `none` means that the fuel ran out.
  unfoldable pub process_batch : ℕ → ℕ → List SubtitleObject → Translation K → Option (Ran K)
  unfolding attempt after_failure
  process_batch zero retry_num batch s = none
  process_batch (suc fuel) retry_num batch s =
      let (failure, s') = attempt batch s in
      elim failure [
        | none ↦ some (returned s')
        | some response ↦ elim (after_failure retry_num batch response s') [
          | stop keys ↦ some (raised (rotate s' keys))
          | again keys ↦ process_batch fuel (retry_num - 1) batch (rotate s' keys)
          | halve keys ↦
              elim (process_batch fuel 3 (take (length batch / 2) batch) (rotate s' keys)) [
                | none ↦ none
                | some ran ↦ elim ran [
                  | raised t ↦ some (raised t)
                  | returned t ↦ process_batch fuel 3 (drop (length batch / 2) batch) t
                ]
              ]
        ]
      ]
