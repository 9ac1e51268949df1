-- ===== src/Bazarr/Item.antt =====
-- `process_one`: one item is handed to Bazarr, and its file is waited for.
pub mod Wait
pub mod Outcome
use mediahub_configs.Prelude.{
  ℕ, zero, suc, ◌+◌, ◌≡◌, refl, Bool, true, false, not, ◌&&◌, Option, none, some, List, [], ◌∷◌,
  if◌then◌else◌, ltb, any, ◌==◌,
}
use mediahub_configs.Prelude.Equality.{Eq, ◌=?◌, list_eq, nat_eq}
use mediahub_configs.Prelude.Codes.{codes}
use mediahub_configs.Bazarr.Attempts.{Kind, Files, record_failure, Item, Missing}
use mediahub_configs.Bazarr.Paths.{Subtitle, find_english_external_sub, build_es_target_path}
use mediahub_configs.Bazarr.Errors.{
  Category, rate_limited_error, permission_error, malformed_json, classify,
}

pub data Result : Type 0 where
  ok fail timeout skip rate_limited permission malformed : Result

-- What Bazarr and the file system answer for an item: its subtitles, unless they cannot be fetched;
-- the code of the request; and, some seconds after it, the text of a file and the lines of the log.
pub record Outside : Type 0 where
  pub detail : Option (List Subtitle)
  pub request_time : ℕ
  pub patch_code : ℕ
  pub file_at : ℕ → List ℕ → Option (List ℕ)
  pub log_at : ℕ → List (List ℕ)

abbrev pub poll_interval : ℕ
poll_interval = 8

abbrev pub poll_timeout : ℕ
poll_timeout = 240

abbrev pub is_written : (List ℕ → Bool) → Option (List ℕ) → Bool
is_written is_blank none = false
is_written is_blank (some content) = not (is_blank content)

-- Of the first missing Spanish subtitle: whether it is a forced one, and one for the hearing impaired.
abbrev pub wanted_es : List Missing → Bool × Bool
wanted_es [] = (false, false)
wanted_es (m ∷ missing) =
    let rest = wanted_es missing in if m.code2 =? codes "es" then (m.forced, m.hi) else rest

-- A round takes eight of the 240 seconds, so 31 rounds are enough.
abbrev pub poll_fuel : ℕ
poll_fuel = 31

abbrev pub english_of : Option (List Subtitle) → Option Subtitle
english_of none = none
english_of (some subtitles) = find_english_external_sub subtitles

module _ (parse_time : List ℕ → Option ℕ) (is_blank : List ℕ → Bool) where
  -- The loop that waits; none if the fuel is used up.
  pub poll : ℕ → Outside → List ℕ → List ℕ → ℕ → Option Result
  poll zero o path target waited = none
  poll (suc fuel) o path target waited =
      let now = waited + poll_interval in
      let more = poll fuel o path target now in
      if ltb waited poll_timeout
      then (if is_written is_blank (o.file_at now target)
          then some ok
          else elim (classify parse_time o.request_time path (o.log_at now)) [
            | none ↦ more
            | some rate_limited_error ↦ some rate_limited
            | some permission_error ↦ some permission
            | some malformed_json ↦ some malformed
          ])
      else some timeout

  unfoldable pub translated : Item → Outside → Option Subtitle → Option Result
  unfolding poll
  translated item o none = some skip
  translated item o (some en_sub) =
      let (forced, hi) = wanted_es item.missing_subtitles in
      let target = build_es_target_path en_sub.path forced hi in
      if o.patch_code == 204 then poll poll_fuel o en_sub.path target 0 else some fail

  -- An item without a detail is skipped as one without English subtitles is.
  unfoldable pub result_of : Item → Outside → Option Result
  unfolding translated
  result_of item o = translated item o (english_of o.detail)

-- The results that are put down as a failure of the item.
abbrev pub is_recorded : Result → Bool
is_recorded fail = true
is_recorded timeout = true
is_recorded malformed = true
is_recorded _ = false

-- A failure is recorded where it is found, right before the result is returned.
unfoldable pub process_one :
    (List ℕ → Option ℕ) → (List ℕ → Bool) → Kind → Item → Outside → Files → Option (Result × Files)
unfolding result_of
process_one parse_time is_blank kind item o f = elim (result_of parse_time is_blank item o) [
  | none ↦ none
  | some r ↦ some (r, if is_recorded r then record_failure kind item.id f else f)
]
