-- ===== src/Subgen/Choice.antt =====
-- subgen.py: the language that a file is transcribed in, from its audio tracks and the settings.
pub mod Skip
pub mod Laws
use mediahub_configs.Prelude.{
  ℕ, Bool, true, false, not, ◌||◌, ◌&&◌, Option, none, some, List, [], ◌∷◌, if◌then◌else◌, any, map,
}
use mediahub_configs.Subgen.Languages.{Language, no_language}
use mediahub_configs.Subgen.Languages.Lookups.{language_eq, is_language}

-- A dict of `get_audio_tracks`, as far as it is read here.
pub record Track : Type 0 where
  pub index : ℕ
  pub language : Language
  pub default : Bool

-- `language in languages`, which asks `__eq__`.
abbrev pub is_in : Language → List Language → Bool
is_in language languages = any (λ l. language_eq l language) languages

pub get_audio_track_by_language : List Track → Language → Option Track
get_audio_track_by_language [] language = none
get_audio_track_by_language (track ∷ tracks) language =
    let later = get_audio_track_by_language tracks language in
    if language_eq track.language language then some track else later

pub find_language_audio_track : List Track → List Language → Option Language
find_language_audio_track tracks [] = none
find_language_audio_track tracks (language ∷ languages) =
    let later = find_language_audio_track tracks languages in
    if any (λ track. language_eq track.language language) tracks then some language else later

pub find_default_audio_track_language : List Track → Option Language
find_default_audio_track_language [] = none
find_default_audio_track_language (track ∷ tracks) =
    let later = find_default_audio_track_language tracks in
    if track.default then some track.language else later

-- The settings that are read; a language that is not set is NONE, and `subtitle_language_name` is
-- what `from_string` makes of the name that is set (NONE if there is none or it is not valid).
pub record Settings : Type 0 where
  pub translates : Bool
  pub lrc_for_audio_files : Bool
  pub force_detected_language_to : Language
  pub preferred_audio_languages : List Language
  pub limit_to_preferred_audio_languages : Bool
  pub skip_unknown_language : Bool
  pub skip_if_no_audio_language_but_subtitles_exist : Bool
  pub skip_audio_languages : List Language
  pub skip_if_target_subtitle_exists : Bool
  pub subtitle_language_name : Language
  pub skip_if_internal_sub_language : Language
  pub skip_subtitle_languages : List Language
  pub skip_if_external_sub_exists : Bool
  pub only_match_subgen_subtitles : Bool
  pub ignore_forced_subtitles : Bool
  pub should_whisper_detect_audio_language : Bool

abbrev pub or_else : Option Language → Language → Language
or_else none language = language
or_else (some found) language = if is_language found then found else language

-- With the tracks given, as `gen_subtitles_queue` does.
unfoldable pub choose_transcribe_language : Settings → Language → List Track → Language
unfolding find_language_audio_track find_default_audio_track_language
choose_transcribe_language config forced_language tracks =
    if is_language forced_language
    then forced_language
    else if is_language config.force_detected_language_to
    then config.force_detected_language_to
    else or_else (find_language_audio_track tracks config.preferred_audio_languages)
        (or_else (find_default_audio_track_language tracks) no_language)
