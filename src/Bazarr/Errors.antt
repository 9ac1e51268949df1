-- ===== src/Bazarr/Errors.antt =====
-- `classify_bazarr_log_error_since`: what the log says of the request that is waited for.
use mediahub_configs.Prelude.{
  ℕ, ◌+◌, Bool, true, false, ◌&&◌, Option, none, some, List, [], ◌∷◌, if◌then◌else◌, ltb, any,
  reverse,
}
use mediahub_configs.Prelude.Text.{is_part, before_first}
use mediahub_configs.Prelude.Codes.{codes}

pub data Category : Type 0 where
  rate_limited_error permission_error malformed_json : Category

abbrev pub rate_limit_markers : List (List ℕ)
rate_limit_markers = codes "rate limited" ∷ codes "RESOURCE_EXHAUSTED" ∷ []

abbrev pub permission_error_markers : List (List ℕ)
permission_error_markers = codes "PermissionError" ∷ codes "Permission denied" ∷ []

abbrev pub malformed_json_markers : List (List ℕ)
malformed_json_markers =
    codes "Gemini returned"
    ∷ codes "Gemini has returned different indices"
    ∷ codes "Expecting ','"
    ∷ codes "Expecting value"
    ∷ codes "Extra data"
    ∷ codes "Invalid control character"
    ∷ codes "Invalid \\uXXXX escape"
    ∷ []

abbrev pub has_marker : List (List ℕ) → List ℕ → Bool
has_marker markers text = any (λ m. is_part m text) markers

abbrev pub is_path : List ℕ → Bool
is_path [] = false
is_path (x ∷ xs) = true

-- What one line tells; none if nothing.
unfoldable pub category_of : List ℕ → List ℕ → Option Category
category_of path_hint text =
    if has_marker rate_limit_markers text
    then some rate_limited_error
    else if has_marker malformed_json_markers text
    then some malformed_json
    else if is_path path_hint
        && (is_part path_hint text && has_marker permission_error_markers text)
    then some permission_error
    else none

-- The time of a line, in seconds: the text in front of the bar, stripped, in the log's time zone.
module _ (parse_time : List ℕ → Option ℕ) where
  -- The lines from the last one on, up to one that is too old.
  unfoldable pub classify_from : ℕ → List ℕ → List (List ℕ) → Option Category
  unfolding category_of before_first
  classify_from since path_hint [] = none
  classify_from since path_hint (text ∷ older) =
      let rest = classify_from since path_hint older in
      if is_part (codes "|") text
      then elim (parse_time (before_first 124 text)) [
        | none ↦ rest
        | some t ↦
            if ltb (t + 5) since
            then none
            else elim (category_of path_hint text) [ none ↦ rest | some c ↦ some c ]
      ]
      else rest

  unfoldable pub classify : ℕ → List ℕ → List (List ℕ) → Option Category
  unfolding classify_from
  classify since path_hint lines = classify_from since path_hint (reverse lines)
