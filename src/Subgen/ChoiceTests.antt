-- ===== src/Subgen/ChoiceTests.antt =====
-- Runs of the look-ups and of the choice of a language, and their theorems at concrete inputs.
use mediahub_configs.Prelude.{ℕ, ◌≡◌, refl, true, false, ◌||◌, none, some, List, [], ◌∷◌}
use Prim.Native.String.{String}
use mediahub_configs.Prelude.Equality.{nat_eq}
use mediahub_configs.Subgen.Languages.{Language, no_language}
use mediahub_configs.Subgen.Languages.Lookups.{from_iso_639_2, from_string}
use mediahub_configs.Subgen.Queue.{Queue, empty_queue, is_active}
use mediahub_configs.Subgen.Queue.Steps.{starts}
use mediahub_configs.Subgen.Choice.{Settings, Track, choose_transcribe_language}
use mediahub_configs.Subgen.Choice.Skip.{File, Content, should_skip_file, gen_subtitles_queue}
use mediahub_configs.Subgen.Choice.Laws.{is_wanted, gen_subtitles_queue_iff}

abbrev afar : Language
afar = record {
  iso_639_1 = some "aa";
  iso_639_2_t = some "aar";
  iso_639_2_b = some "aar";
  name_en = some "Afar";
  name_native = some "Afar";
}

abbrev afrikaans : Language
afrikaans = record {
  iso_639_1 = some "af";
  iso_639_2_t = some "afr";
  iso_639_2_b = some "afr";
  name_en = some "Afrikaans";
  name_native = some "Afrikaans";
}

abbrev pub as_is : String → String
as_is text = text

german : (from_iso_639_2 (some "ger")).iso_639_1 ≡ some "de"
unfolding from_iso_639_2
german = refl

by_name : from_string as_is as_is (some "aar") ≡ afar
unfolding from_string
by_name = refl

abbrev tracks : List Track
tracks =
    record { index = 1; language = afrikaans; default = true }
    ∷ record { index = 2; language = afar; default = false }
    ∷ []

abbrev pub config : Settings
config = record {
  translates = false;
  lrc_for_audio_files = true;
  force_detected_language_to = no_language;
  preferred_audio_languages = afar ∷ [];
  limit_to_preferred_audio_languages = true;
  skip_unknown_language = true;
  skip_if_no_audio_language_but_subtitles_exist = true;
  skip_audio_languages = [];
  skip_if_target_subtitle_exists = true;
  subtitle_language_name = no_language;
  skip_if_internal_sub_language = no_language;
  skip_subtitle_languages = [];
  skip_if_external_sub_exists = false;
  only_match_subgen_subtitles = false;
  ignore_forced_subtitles = true;
  should_whisper_detect_audio_language = false;
}

abbrev pub film : File
film = record {
  is_audio_file = false;
  lrc_exists = false;
  has_audio = true;
  audio_tracks = tracks;
  streams = none;
  dir_entries = [];
  output_exists = λ language. false;
}

chosen : choose_transcribe_language config no_language tracks ≡ afar
unfolding choose_transcribe_language
chosen = refl

not_skipped : should_skip_file as_is as_is config film afar (afrikaans ∷ afar ∷ []) ≡ false
unfolding should_skip_file
not_skipped = refl

abbrev idle : Queue ℕ (Content Unit)
idle = empty_queue

gen_subtitles_queue_iff_example :
    is_active 1 (gen_subtitles_queue as_is as_is config 1 film false no_language tt 10 idle)
    ≡ (is_active 1 idle || is_wanted as_is as_is config film no_language)
gen_subtitles_queue_iff_example =
    gen_subtitles_queue_iff as_is as_is config 1 film false no_language tt 10 idle starts
