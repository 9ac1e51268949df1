-- ===== src/Gemini/Responses.antt =====
-- `_is_rate_limited_response`. Texts are lists of code points.
use mediahub_configs.Prelude.{
  ℕ, Bool, true, false, ◌&&◌, ◌||◌, Option, none, some, List, [], ◌∷◌, if◌then◌else◌, ◌==◌,
}
use mediahub_configs.Prelude.Equality.{◌=?◌, nat_eq, list_eq}
use mediahub_configs.Gemini.Keys.{RetryAfter}

-- `response.json().get("error", {})`: it raises, is not a dict, or is one, with the texts of its
-- "status" and its "message" (empty without them).
pub data ErrorBody : Type 0 where
  unreadable_body : ErrorBody
  not_a_dict : ErrorBody
  error_body : (status message : List ℕ) → ErrorBody

pub record Response : Type 0 where
  pub status_code : ℕ
  pub body : ErrorBody
  pub retry_after : RetryAfter

-- The Unicode tables.
pub record Cases : Type 0 where
  pub upper : List ℕ → List ℕ
  pub lower : List ℕ → List ℕ

abbrev pub is_prefix : List ℕ → List ℕ → Bool
is_prefix [] text = true
is_prefix (c ∷ word) [] = false
is_prefix (c ∷ word) (d ∷ text) = c == d && is_prefix word text

-- word in text
abbrev pub is_infix : List ℕ → List ℕ → Bool
is_infix word [] = is_prefix word []
is_infix word (d ∷ text) = is_prefix word (d ∷ text) || is_infix word text

-- "RESOURCE_EXHAUSTED"
abbrev pub resource_exhausted : List ℕ
resource_exhausted =
    82 ∷ 69 ∷ 83 ∷ 79 ∷ 85 ∷ 82 ∷ 67 ∷ 69 ∷ 95 ∷ 69 ∷ 88 ∷ 72 ∷ 65 ∷ 85 ∷ 83 ∷ 84 ∷ 69 ∷ 68 ∷ []

-- "rate limit"
abbrev pub rate_limit : List ℕ
rate_limit = 114 ∷ 97 ∷ 116 ∷ 101 ∷ 32 ∷ 108 ∷ 105 ∷ 109 ∷ 105 ∷ 116 ∷ []

-- "quota"
abbrev pub quota : List ℕ
quota = 113 ∷ 117 ∷ 111 ∷ 116 ∷ 97 ∷ []

-- `none` means that it raises: the error is not a dict.
unfoldable pub is_rate_limited_response : Cases → Option Response → Option Bool
is_rate_limited_response u none = some false
is_rate_limited_response u (some response) =
    if response.status_code == 429 then some true else elim response.body [
      | unreadable_body ↦ some false
      | not_a_dict ↦ none
      | error_body status message ↦ some (
          u.upper status =? resource_exhausted
          || is_infix rate_limit (u.lower message)
          || is_infix quota (u.lower message))
    ]
