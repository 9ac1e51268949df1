-- ===== src/Subgen/Choice/Skip.antt =====
-- subgen.py: `should_skip_file`, the look for subtitles, and `gen_subtitles_queue`. What ffprobe,
-- PyAV and the file system say of a file is a record.
use mediahub_configs.Prelude.{
  ℕ, Bool, true, false, not, ◌||◌, ◌&&◌, Option, none, some, List, [], ◌∷◌, if◌then◌else◌, any, map,
}
use Prim.Native.String.{String}
use mediahub_configs.Prelude.Equality.{Eq, ◌=?◌, string_eq}
use mediahub_configs.Subgen.Languages.{Language, no_language}
use mediahub_configs.Subgen.Languages.Lookups.{
  language_eq, is_language, from_iso_639_1, from_iso_639_2, from_string,
}
use mediahub_configs.Subgen.Queue.{
  Task, Queue, detect_language, transcribe, put, is_active, is_empty,
}
use mediahub_configs.Subgen.Choice.{Settings, Track, is_in, choose_transcribe_language}

pub record Stream : Type 0 where
  pub is_subtitle : Bool
  pub is_forced : Bool
  pub language : Option String

-- An entry of the folder: a subtitle file, with the parts of its name behind the video's name if it
-- begins with that, or a folder with its subtitle files, or anything else.
pub data DirEntry : Type 0 where
  subtitle_file : Option (List String) → DirEntry
  folder : List (Option (List String)) → DirEntry
  other_entry : DirEntry

-- `streams` is `none` if PyAV cannot open the file; the folder that cannot be listed is empty.
pub record File : Type 0 where
  pub is_audio_file : Bool
  pub lrc_exists : Bool
  pub has_audio : Bool
  pub audio_tracks : List Track
  pub streams : Option (List Stream)
  pub dir_entries : List DirEntry
  pub output_exists : Language → Bool

module _ (config : Settings) where
  abbrev pub left_out : Stream → Bool
  left_out stream = config.ignore_forced_subtitles && stream.is_forced

  -- Without a tag, and with an empty one, the language is NONE.
  abbrev pub tag_language : Option String → Language
  tag_language none = no_language
  tag_language (some tag) = if tag =? "" then no_language else from_iso_639_2 (some tag)

  pub stream_languages : List Stream → List Language
  stream_languages [] = []
  stream_languages (stream ∷ streams) =
      let rest = stream_languages streams in
      if stream.is_subtitle && not (left_out stream)
      then tag_language stream.language ∷ rest
      else rest

  abbrev pub get_subtitle_languages : Option (List Stream) → List Language
  get_subtitle_languages none = []
  get_subtitle_languages (some streams) = stream_languages streams

module _ (lower strip : String → String) (config : Settings) where
  abbrev pub has_tag : Option String → Language → Bool
  has_tag none target = false
  has_tag (some tag) target = language_eq (from_string lower strip (some (lower tag))) target

  pub has_internal_subtitle_in_language : Option (List Stream) → Language → Bool
  has_internal_subtitle_in_language none target = false
  has_internal_subtitle_in_language (some streams) target =
      any
        (λ stream.
          stream.is_subtitle && not (left_out config stream) && has_tag stream.language target)
        streams

  abbrev pub is_valid_subtitle_language : List String → Language → Bool
  is_valid_subtitle_language parts target =
      any (λ part. language_eq (from_string lower strip (some part)) target) parts

  -- Whether the subtitle file counts; for NONE any does, or any that subgen has made.
  abbrev pub counts : Language → Option (List String) → Bool
  counts target none = false
  counts target (some parts) =
      let has_subgen = any (λ part. part =? "subgen") parts in
      if is_language target
      then is_valid_subtitle_language parts target
        && not (config.only_match_subgen_subtitles && not has_subgen)
      else not config.only_match_subgen_subtitles || has_subgen

  -- A folder in the folder is searched too, but not the ones in it.
  abbrev pub entry_counts : Language → DirEntry → Bool
  entry_counts target (subtitle_file parts) = counts target parts
  entry_counts target (folder files) = any (counts target) files
  entry_counts target other_entry = false

  pub has_external_subtitle_in_language : List DirEntry → Language → Bool
  has_external_subtitle_in_language entries target = any (entry_counts target) entries

  pub subtitle_exists_in_language : File → Language → Bool
  unfolding has_internal_subtitle_in_language has_external_subtitle_in_language
  subtitle_exists_in_language file target =
      (not config.only_match_subgen_subtitles
        && has_internal_subtitle_in_language file.streams target)
      || has_external_subtitle_in_language file.dir_entries target

  -- `from_iso_639_1 (some "en")` is LanguageCode.ENGLISH.
  abbrev pub target_of : Language → Language
  target_of language = if config.translates then from_iso_639_1 (some "en") else language

  abbrev pub is_skipped_unknown : File → Language → Bool
  is_skipped_unknown file target =
      not (is_language target)
      && (config.skip_unknown_language
          || (config.skip_if_no_audio_language_but_subtitles_exist
              && not (is_empty (get_subtitle_languages config file.streams))))

  abbrev pub is_skipped_audio : List Language → Bool
  is_skipped_audio audio_langs =
      (config.limit_to_preferred_audio_languages
        && not (any (λ lang. is_in lang config.preferred_audio_languages) audio_langs))
      || any (λ lang. is_in lang config.skip_audio_languages) audio_langs

  abbrev pub named_exists : File → Bool
  named_exists file =
      is_language config.subtitle_language_name
      && has_external_subtitle_in_language file.dir_entries config.subtitle_language_name

  abbrev pub is_skipped_target : File → Language → Bool
  is_skipped_target file target =
      config.skip_if_target_subtitle_exists
      && ((not (not (is_language target) && is_language config.subtitle_language_name)
            && subtitle_exists_in_language file target)
          || named_exists file
          || file.output_exists target)

  abbrev pub is_skipped_internal : File → Bool
  is_skipped_internal file =
      (is_language config.skip_if_internal_sub_language
        && has_internal_subtitle_in_language file.streams config.skip_if_internal_sub_language)
      || any (λ lang. is_in lang config.skip_subtitle_languages)
          (get_subtitle_languages config file.streams)

  -- The checks in their order, each of which returns True.
  unfoldable pub should_skip_file : File → Language → List Language → Bool
  unfolding stream_languages has_internal_subtitle_in_language has_external_subtitle_in_language
      subtitle_exists_in_language
  should_skip_file file target_language audio_langs =
      let target = target_of target_language in
      if file.is_audio_file && config.lrc_for_audio_files && file.lrc_exists
      then true
      else if is_skipped_unknown file target
      then true
      else if is_skipped_audio audio_langs
      then true
      else if is_skipped_target file target
      then true
      else if is_skipped_internal file
      then true
      else config.skip_if_external_sub_exists && named_exists file

-- The rest of a task's dict: a detection has only the caller's arguments, and a transcription that
-- comes from one has no tracks.
pub data Content (E : Type 0) : Type 0 where
  detection : E → Content E
  transcription :
      (translates : Bool) (language : Language) (tracks : Option (List Track)) → E → Content E

abbrev pub track_language : Track → Language
track_language track = track.language

-- A detection comes first when no language is known and it is enabled.
unfoldable pub task_for :
    {P E : Type 0} → Settings → P → Bool → Language → List Track → E → Task P (Content E)
task_for config path translates language tracks task_kwargs =
    let detects = not (is_language language) && config.should_whisper_detect_audio_language in
    record {
      path = path;
      type = if detects then detect_language else transcribe;
      content =
          if detects
          then detection task_kwargs
          else transcription translates language (some tracks) task_kwargs;
    }

module _ {P E : Type 0} ⦃e : Eq P⦄ (lower strip : String → String) (config : Settings) where
  unfoldable pub gen_subtitles_queue :
      P → File → Bool → Language → E → ℕ → Queue P (Content E) → Queue P (Content E)
  unfolding is_active put choose_transcribe_language should_skip_file task_for
  gen_subtitles_queue path file translates force_language task_kwargs now q =
      let tracks = file.audio_tracks in
      let language = choose_transcribe_language config force_language tracks in
      if is_active path q
      then q
      else if not file.has_audio
      then q
      else if should_skip_file lower strip config file language (map track_language tracks)
      then q
      else (put (task_for config path translates language tracks task_kwargs) now q).1
