-- ===== src/Subgen/Choice/Laws.antt =====
-- What is chosen, skipped and queued.
use mediahub_configs.Prelude.{
  ℕ, ◌≡◌, refl, ap, subst, ◌↔◌, inl, inr, Bool, true, false, not, ◌||◌, ◌&&◌, none, some, List, [],
  ◌∷◌, ◌++◌, if◌then◌else◌, any, map, All, arith, Bool-cases,
}
use Prim.Native.String.{String}
use mediahub_configs.Prelude.Equality.{Eq}
use mediahub_configs.Subgen.Languages.{Language}
use mediahub_configs.Subgen.Languages.Lookups.{language_eq, is_language}
use mediahub_configs.Subgen.Queue.{Task, Queue, put, is_active}
use mediahub_configs.Subgen.Queue.Steps.{Reachable, steps, puts, put_iff, put-is_active}
use mediahub_configs.Subgen.Choice.{
  Settings, Track, is_in, find_language_audio_track, choose_transcribe_language,
}
use mediahub_configs.Subgen.Choice.Skip.{
  File, Content, should_skip_file, gen_subtitles_queue, task_for, get_subtitle_languages, target_of,
  track_language,
}

-- Whether a track has the language.
abbrev pub is_spoken : List Track → Language → Bool
is_spoken tracks language = any (λ track. language_eq track.language language) tracks

-- The language stands among the wanted ones, a track has it, and none has one of those before it.
pub record IsFirstSpoken (tracks : List Track) (wanted : List Language) (language : Language)
    : Type 0 where
  pub before : List Language
  pub after : List Language
  pub splits : wanted ≡ before ++ language ∷ after
  pub spoken : is_spoken tracks language ≡ true
  pub unspoken : All (λ l. is_spoken tracks l ≡ false) before

-- The wanted language that is found is the first that a track has; none is found exactly if no track
-- has any of them.
find_language_audio_track-IsFirstSpoken :
    (tracks : List Track) (wanted : List Language)
    → ((language : Language)
        → find_language_audio_track tracks wanted ≡ some language
        → IsFirstSpoken tracks wanted language)
      × ((find_language_audio_track tracks wanted ≡ none)
          ↔ All (λ l. is_spoken tracks l ≡ false) wanted)
unfolding find_language_audio_track
find_language_audio_track-IsFirstSpoken tracks [] = (λ l h. absurd (cc), (λ h. tt, λ h. refl))
find_language_audio_track-IsFirstSpoken tracks (w ∷ ws) =
    let rest = find_language_audio_track-IsFirstSpoken tracks ws in
    elim (Bool-cases (is_spoken tracks w)) [
      | inl e ↦ rw e (λ l h. here e l (cc), (λ h. absurd (cc), λ h. absurd (cc)))
      | inr e ↦ rw e (λ l h. there e l (rest.0 l h), (λ h. (refl, rest.1.0 h), λ h. rest.1.1 h.1))
    ]
  where
    here : is_spoken tracks w ≡ true → (l : Language) → w ≡ l → IsFirstSpoken tracks (w ∷ ws) l
    here e l p = record {
      before = [];
      after = ws;
      splits = ap (λ k. k ∷ ws) p;
      spoken = subst (λ k. is_spoken tracks k ≡ true) p e;
      unspoken = tt;
    }

    there :
        is_spoken tracks w ≡ false
        → (l : Language) → IsFirstSpoken tracks ws l
        → IsFirstSpoken tracks (w ∷ ws) l
    there e l r = record {
      before = w ∷ r.before;
      after = r.after;
      splits = ap (λ k. w ∷ k) r.splits;
      spoken = r.spoken;
      unspoken = (e, r.unspoken);
    }

module _ (lower strip : String → String) (config : Settings) where
  -- A file that is not skipped has no track in a language to be skipped, one in a preferred language if
  -- only those are wanted, a known language if the unknown one is to be skipped, no subtitles
  -- inside in a language to be skipped, and, where existing subtitles are looked at, no output yet.
  should_skip_file-false :
      (file : File) (language : Language) (audio_langs : List Language)
      → should_skip_file lower strip config file language audio_langs ≡ false
      → (any (λ l. is_in l config.skip_audio_languages) audio_langs ≡ false)
        × (config.limit_to_preferred_audio_languages ≡ true
            → any (λ l. is_in l config.preferred_audio_languages) audio_langs ≡ true)
        × (config.skip_unknown_language ≡ true
            → is_language (target_of lower strip config language) ≡ true)
        × (any
              (λ l. is_in l config.skip_subtitle_languages)
              (get_subtitle_languages config file.streams)
            ≡ false)
        × (config.skip_if_target_subtitle_exists ≡ true
            → file.output_exists (target_of lower strip config language) ≡ false)
  unfolding should_skip_file
  should_skip_file-false file language audio_langs h =
      (ground arith, ground arith, ground arith, ground arith, ground arith)

  -- The tracks of the file decide the language, and that decides if it is skipped.
  abbrev pub is_wanted : File → Language → Bool
  is_wanted file force_language =
      file.has_audio
      && not (
          should_skip_file lower strip config file
            (choose_transcribe_language config force_language file.audio_tracks)
            (map track_language file.audio_tracks))

module _ {P D : Type 0} ⦃e : Eq P⦄ (q : Queue P D) (task : Task P D) (now : ℕ)
    (r : Reachable q) where
  -- A task that is put in unless one of three tests stops it.
  abbrev guarded : Bool → Bool → Bool → Queue P D
  guarded active has_audio skipped =
      if active then q else if not has_audio then q else if skipped then q else (put task now q).1

  guarded-Reachable : (a h s : Bool) → Reachable (guarded a h s)
  guarded-Reachable true h s = r
  guarded-Reachable false false s = r
  guarded-Reachable false true true = r
  guarded-Reachable false true false = steps q _ r (puts task now q)

  guarded-is_active :
      (a h s : Bool)
      → is_active task.path q ≡ a
      → is_active task.path (guarded a h s) ≡ (a || (h && not s))
  guarded-is_active true h s p = p
  guarded-is_active false false s p = p
  guarded-is_active false true true p = p
  guarded-is_active false true false p = (put_iff task now q r).1

  guarded-keeps : (p : P) (a h s : Bool) → is_active p q ≡ true → is_active p (guarded a h s) ≡ true
  guarded-keeps p true h s active = active
  guarded-keeps p false false s active = active
  guarded-keeps p false true true active = active
  guarded-keeps p false true false active = put-is_active p task now q active

module _ {P E : Type 0} ⦃e : Eq P⦄ (lower strip : String → String) (config : Settings) where
  module _ (path : P) (file : File) (translates : Bool) (force_language : Language)
      (task_kwargs : E) (now : ℕ) (q : Queue P (Content E)) (r : Reachable q) where
    abbrev chosen : Language
    chosen = choose_transcribe_language config force_language file.audio_tracks

    abbrev task : Task P (Content E)
    task = task_for config path translates chosen file.audio_tracks task_kwargs

    abbrev skipped : Bool
    skipped = should_skip_file lower strip config file chosen (map track_language file.audio_tracks)

    abbrev after : Queue P (Content E)
    after =
        gen_subtitles_queue lower strip config path file translates force_language task_kwargs now q

    -- What `gen_subtitles_queue` makes of a queue is a queue that the threads' steps can reach.
    pub gen_subtitles_queue-Reachable : Reachable after
    unfolding gen_subtitles_queue
    gen_subtitles_queue-Reachable =
        guarded-Reachable q task now r (is_active path q) file.has_audio skipped

    -- After `gen_subtitles_queue` the path is active exactly if it was before, or the file has
    -- audio and is not skipped in the language chosen for it.
    pub gen_subtitles_queue_iff :
        is_active path after
        ≡ (is_active path q || is_wanted lower strip config file force_language)
    unfolding gen_subtitles_queue task_for
    gen_subtitles_queue_iff =
        guarded-is_active q task now r (is_active path q) file.has_audio skipped refl

    -- A path that is active stays so.
    pub gen_subtitles_queue-is_active : (p : P) → is_active p q ≡ true → is_active p after ≡ true
    unfolding gen_subtitles_queue
    gen_subtitles_queue-is_active p active =
        guarded-keeps q task now r p (is_active path q) file.has_audio skipped active
