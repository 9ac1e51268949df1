-- ===== src/Gemini/Keys.antt =====
-- The rotation of the API keys: `_get_configured_api_keys`, `_is_key_on_cooldown`,
-- `_select_next_api_key`, `_get_retry_after_seconds`, `_set_key_cooldown`,
-- `_handle_rate_limited_key`. Times are whole seconds, and the clock's readings are arguments.
pub mod Configured
pub mod Turn
pub mod Pick
use mediahub_configs.Prelude.{
  ℕ, zero, suc, ◌+◌, ◌-◌, ◌%◌, max, Bool, true, false, Option, none, some, List, [], ◌∷◌, ◌++◌,
  if◌then◌else◌, length, leb, any, get_elem?,
}
use mediahub_configs.Prelude.Equality.{Eq, ◌=?◌}
use mediahub_configs.Prelude.Dict.{get, put, pop}

abbrev pub default_gemini_key_cooldown_seconds : ℕ
default_gemini_key_cooldown_seconds = 60

-- What the `Retry-After` header of a response says: it is missing or empty, `int(float(...))`
-- raises, or gives a number (0 stands for those below 1).
pub data RetryAfter : Type 0 where
  missing : RetryAfter
  unreadable : RetryAfter
  seconds : ℕ → RetryAfter

unfoldable pub get_retry_after_seconds : RetryAfter → ℕ
get_retry_after_seconds missing = default_gemini_key_cooldown_seconds
get_retry_after_seconds unreadable = default_gemini_key_cooldown_seconds
get_retry_after_seconds (seconds n) = max 1 n

module _ {K : Type 0} ⦃e : Eq K⦄ where
  -- A key that was seen is not added again.
  pub add_key : K → List K → List K
  add_key key keys = if any (λ k. k =? key) keys then keys else keys ++ key ∷ []

  -- The loop over the configured keys, stripped and without the empty ones; `keys` are also the
  -- ones seen.
  pub configured_from : List K → List K → List K
  unfolding add_key
  configured_from keys [] = keys
  configured_from keys (key ∷ raw) = configured_from (add_key key keys) raw

  unfoldable pub get_configured_api_keys : List K → List K
  unfolding configured_from
  get_configured_api_keys raw = configured_from [] raw

-- The service's keys; `current_api_index` is `none` for -1. The cooldowns are the module's dict.
pub record Rotation (K : Type 0) : Type 0 where
  pub api_keys : List K
  pub current_api_index : Option ℕ
  pub current_api_key : Option K
  pub cooldowns : List (K × ℕ)

abbrev pub candidate_index : Option ℕ → ℕ → ℕ → ℕ
candidate_index none offset total = (offset - 1) % total
candidate_index (some start) offset total = (start + offset) % total

module _ {K : Type 0} ⦃e : Eq K⦄ where
  -- An expired cooldown is dropped.
  pub is_key_on_cooldown : K → ℕ → List (K × ℕ) → Bool × List (K × ℕ)
  unfolding get pop
  is_key_on_cooldown key now cooldowns = elim (get key cooldowns) [
    | none ↦ (false, cooldowns)
    | some expires_at ↦ if leb expires_at now then (false, pop key cooldowns) else (true, cooldowns)
  ]

  -- The loop over the offsets, from `offset` on with `rounds` left; `clock offset` is what the clock
  -- shows when that candidate is looked at. (The index is below the number of keys.)
  pub select_from :
      (ℕ → ℕ) → List K → Option ℕ → ℕ → ℕ → List (K × ℕ) → Option (ℕ × K) × List (K × ℕ)
  unfolding is_key_on_cooldown
  select_from clock keys start zero offset cooldowns = (none, cooldowns)
  select_from clock keys start (suc rounds) offset cooldowns =
      let index = candidate_index start offset (length keys) in
      elim (get_elem? keys index) [
        | none ↦ (none, cooldowns)
        | some key ↦
            let checked = is_key_on_cooldown key (clock offset) cooldowns in
            let later = select_from clock keys start rounds (offset + 1) checked.1 in
            if checked.0 then later else (some (index, key), checked.1)
      ]

  abbrev pub selected : Rotation K → Option (ℕ × K) × List (K × ℕ) → Rotation K
  selected r (none, cooldowns) = record r { current_api_key = none; cooldowns = cooldowns }
  selected r (some (index, key), cooldowns) = record r {
    current_api_index = some index;
    current_api_key = some key;
    cooldowns = cooldowns;
  }

  unfoldable pub select_next_api_key : (ℕ → ℕ) → Rotation K → Rotation K
  unfolding select_from
  select_next_api_key clock r =
      selected r
        (select_from clock r.api_keys r.current_api_index (length r.api_keys) 1 r.cooldowns)

  pub set_key_cooldown : K → ℕ → ℕ → List (K × ℕ) → List (K × ℕ)
  unfolding put
  set_key_cooldown key cooldown_seconds now cooldowns =
      put key (now + max 1 cooldown_seconds) cooldowns

-- `_handle_rate_limited_key` returns, or raises that all keys are rate limited; the state stays
-- changed then too.
pub data Handled (K : Type 0) : Type 0 where
  rotated : Rotation K → Handled K
  all_rate_limited : Rotation K → Handled K

module _ {K : Type 0} ⦃e : Eq K⦄ where
  unfoldable pub handle_rate_limited_key : ℕ → (ℕ → ℕ) → RetryAfter → Rotation K → Handled K
  unfolding get_retry_after_seconds set_key_cooldown select_next_api_key
  handle_rate_limited_key now clock retry_after r = elim r.current_api_key [
    | none ↦ all_rate_limited r
    | some key ↦
        let r' = select_next_api_key clock (record r {
          cooldowns = set_key_cooldown key (get_retry_after_seconds retry_after) now r.cooldowns;
        }) in
        elim r'.current_api_key [ none ↦ all_rate_limited r' | some next ↦ rotated r' ]
  ]
