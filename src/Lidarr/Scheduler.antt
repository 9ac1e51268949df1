-- ===== src/Lidarr/Scheduler.antt =====
-- scheduler.py: `_scheduled_check`. What Lidarr, the data base and the download process answer is a
-- record; the times are seconds.
pub mod Laws
use mediahub_configs.Prelude.{
  ℕ, ◌-◌, ◌*◌, max, Bool, true, false, not, ◌&&◌, Option, none, some, List, [], ◌∷◌, if◌then◌else◌,
  length, keep_if, any, map, take, ltb, ◌==◌,
}

pub record Album : Type 0 where
  pub id : ℕ
  pub missing_track_count : ℕ

-- 0 stands for numbers below it, too.
pub record Config : Type 0 where
  pub scheduler_interval : ℕ
  pub retry_cooldown_seconds : ℕ
  pub scheduler_max_albums : ℕ
  pub scheduler_auto_download : Bool

pub record Answers : Type 0 where
  pub is_downloading : Bool
  pub missing_albums : List Album
  pub queued_ids : List ℕ
  pub history_ids_since : ℕ → List ℕ
  pub attempted_ids_since : ℕ → List ℕ
  pub current_download_id : Option ℕ

pub data Notice : Type 0 where
  adding : ℕ → Notice
  found : ℕ → Notice

-- The albums that are queued, the notification, and `_last_reported_ids`.
pub record Outcome : Type 0 where
  pub enqueued : List ℕ
  pub notice : Option Notice
  pub last_reported_ids : List ℕ

abbrev pub contains : ℕ → List ℕ → Bool
contains id ids = any (λ i. i == id) ids

-- schedule.every(0) would not return.
abbrev pub interval_minutes : Config → ℕ
interval_minutes config = max 1 config.scheduler_interval

abbrev pub is_current : Option ℕ → ℕ → Bool
is_current none id = false
is_current (some current) id = current == id

-- Without a cooldown no attempt is recent.
abbrev pub recently_attempted : Config → Answers → ℕ → List ℕ
recently_attempted config answers now =
    if ltb 0 config.retry_cooldown_seconds
    then answers.attempted_ids_since (now - config.retry_cooldown_seconds)
    else []

abbrev pub is_new : Config → Answers → ℕ → Album → Bool
is_new config answers now album =
    not (contains album.id answers.queued_ids)
    && not (contains album.id (answers.history_ids_since (now - interval_minutes config * 60 * 2)))
    && not (contains album.id (recently_attempted config answers now))
    && not (is_current answers.current_download_id album.id)
    && ltb 0 album.missing_track_count

abbrev pub is_fresh : Answers → Album → Bool
is_fresh answers album = not (contains album.id (answers.attempted_ids_since 0))

-- While any album has never been attempted, only those are taken.
abbrev pub fresh_first : List Album → List Album → List Album
fresh_first [] new_albums = new_albums
fresh_first (album ∷ fresh_albums) new_albums = album ∷ fresh_albums

-- The albums that are queued or reported.
pub chosen_albums : Config → Answers → ℕ → List Album
chosen_albums config answers now =
    let new_albums = keep_if (is_new config answers now) answers.missing_albums in
    let albums = fresh_first (keep_if (is_fresh answers) new_albums) new_albums in
    if ltb 0 config.scheduler_max_albums then take config.scheduler_max_albums albums else albums

-- A set as a list without repetition.
abbrev pub unique : List ℕ → List ℕ
unique [] = []
unique (id ∷ ids) = let rest = unique ids in if contains id rest then rest else id ∷ rest

abbrev pub album_id : Album → ℕ
album_id album = album.id

-- What is done with the chosen albums, of which there is one.
abbrev pub outcome_of : Config → List Album → List ℕ → Outcome
outcome_of config albums last =
    let ids = unique (map album_id albums) in
    let fresh = length (keep_if (λ id. not (contains id last)) ids) in
    if config.scheduler_auto_download
    then record {
      enqueued = map album_id albums;
      notice = some (adding (length albums));
      last_reported_ids = last;
    }
    else record {
      enqueued = [];
      notice = if fresh == 0 then none else some (found fresh);
      last_reported_ids = ids;
    }

abbrev pub nothing : List ℕ → Outcome
nothing last = record { enqueued = []; notice = none; last_reported_ids = last }

abbrev pub outcome_for : Config → List Album → List ℕ → Outcome
outcome_for config [] last = nothing last
outcome_for config (album ∷ albums) last = outcome_of config (album ∷ albums) last

unfoldable pub scheduled_check : Config → Answers → ℕ → List ℕ → Outcome
unfolding chosen_albums
scheduled_check config answers now last =
    if answers.is_downloading
    then nothing last
    else outcome_for config (chosen_albums config answers now) last
