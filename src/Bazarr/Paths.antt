-- ===== src/Bazarr/Paths.antt =====
-- `find_english_external_sub` and `build_es_target_path`.
use mediahub_configs.Prelude.{
  ℕ, Bool, true, false, not, ◌&&◌, Option, none, some, List, [], ◌∷◌, ◌++◌, if◌then◌else◌, drop,
  length,
}
use mediahub_configs.Prelude.Equality.{◌=?◌, list_eq, nat_eq}
use mediahub_configs.Prelude.Text.{is_prefix, is_part, before_last}
use mediahub_configs.Prelude.Codes.{codes}

-- `path` is empty where the source has none.
pub record Subtitle : Type 0 where
  pub code2 : List ℕ
  pub is_embedded : Bool
  pub path : List ℕ

abbrev is_empty : List ℕ → Bool
is_empty [] = true
is_empty (x ∷ xs) = false

unfoldable pub find_english_external_sub : List Subtitle → Option Subtitle
find_english_external_sub [] = none
find_english_external_sub (s ∷ subtitles) =
    let rest = find_english_external_sub subtitles in
    if s.code2 =? codes "en" && (not s.is_embedded && not (is_empty s.path)) then some s else rest

abbrev pub front_or : Option (List ℕ) → List ℕ → List ℕ
front_or none text = text
front_or (some front) text = front

unfoldable pub build_es_target_path : List ℕ → Bool → Bool → List ℕ
unfolding before_last
build_es_target_path en_path forced hi =
    let base =
      if is_part (codes ".en") en_path
      then front_or (before_last (codes ".en") en_path) en_path
      else front_or (before_last (codes ".") en_path) en_path in
    let suffix =
      codes ".es" ++ (if forced then codes ".forced" else []) ++ (if hi then codes ".hi" else []) in
    let target = base ++ suffix ++ codes ".srt" in
    if is_prefix (codes "/data") target
    then codes "/mnt/media" ++ drop (length (codes "/data")) target
    else target
