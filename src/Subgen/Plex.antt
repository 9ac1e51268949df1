-- ===== src/Subgen/Plex.antt =====
-- subgen.py: `get_next_plex_episode`, and `receive_plex_webhook` with its loop over the episodes that
-- follow. A key of Plex is of any type with an equality test.
pub mod Next
pub mod InSeason
pub mod InShow
use mediahub_configs.Prelude.{
  ℕ, zero, suc, ◌+◌, Bool, true, false, ◌&&◌, ◌||◌, Option, none, some, List, [], ◌∷◌,
  if◌then◌else◌, length, ◌==◌, ◌>>=◌,
}
use mediahub_configs.Prelude.Equality.{Eq, ◌=?◌}

-- `index` and `parentIndex` are missing in some answers.
pub record Episode (K : Type 0) : Type 0 where
  pub rating_key : K
  pub index : Option ℕ
  pub parent_index : Option ℕ

pub record Season (K : Type 0) : Type 0 where
  pub rating_key : K
  pub index : Option ℕ

-- What Plex answers: the show and the season of a video, the seasons of a show, and the episodes of a
-- season; none where a request fails or its answer cannot be read.
pub record Plex (K : Type 0) : Type 0 where
  pub parents : K → Option (Option K × Option K)
  pub seasons : K → Option (List (Season K))
  pub episodes : K → Option (List (Episode K))

abbrev pub has_index : ℕ → Option ℕ → Bool
has_index n none = false
has_index n (some i) = i == n

module _ {K : Type 0} where
  -- The key of the first episode with that number.
  unfoldable pub numbered : ℕ → List (Episode K) → Option K
  numbered n [] = none
  numbered n (e ∷ es) =
      let rest = numbered n es in if has_index n e.index then some e.rating_key else rest

  -- The season after the one with that number; none if the number is missing where it is compared,
  -- which raises.
  unfoldable pub season_after : Option ℕ → List (Season K) → Option (Option K)
  season_after c [] = some none
  season_after c (s ∷ ss) =
      let rest = season_after c ss in
      elim s.index [
        | none ↦ rest
        | some i ↦ elim c [
          | none ↦ none
          | some n ↦ if i == n + 1 then some (some s.rating_key) else rest
        ]
      ]

  unfoldable pub next_in_season : ℕ → List (Episode K) → Option K
  unfolding numbered
  next_in_season n episodes = if n == length episodes then none else numbered (n + 1) episodes

  abbrev pub first_of : Plex K → Option K → Option K
  first_of p none = none
  first_of p (some key) = do episodes ← p.episodes key; numbered 1 episodes

  -- The episodes of the season count as many as its last one is numbered.
  unfoldable pub next_in_show :
      Plex K → ℕ → Option ℕ → List (Season K) → List (Episode K) → Option K
  unfolding numbered season_after
  next_in_show p n c seasons episodes = do
    next_season ← season_after c seasons
    if n == length episodes then first_of p next_season else numbered (n + 1) episodes

module _ {K : Type 0} ⦃eq : Eq K⦄ where
  unfoldable pub find_episode : K → List (Episode K) → Option (Episode K)
  find_episode key [] = none
  find_episode key (e ∷ es) =
      let rest = find_episode key es in if e.rating_key =? key then some e else rest

  -- An episode that its season does not list, or that has no number, has no next one: what the source
  -- does with a missing number raises.
  unfoldable pub get_next_plex_episode : Plex K → K → Bool → Option K
  unfolding find_episode next_in_season next_in_show
  get_next_plex_episode p key stay_in_season = do
    (grandparent, parent) ← p.parents key
    show ← grandparent
    season ← parent
    seasons ← p.seasons show
    episodes ← p.episodes season
    current ← find_episode key episodes
    n ← current.index
    elim stay_in_season [
      | true ↦ next_in_season n episodes
      | false ↦ next_in_show p n current.parent_index seasons episodes
    ]

pub data Event : Type 0 where
  library_new media_play other_event : Event

pub record PlexSettings : Type 0 where
  pub procaddedmedia : Bool
  pub procmediaonplay : Bool
  pub plex_queue_next_episode : Bool
  pub plex_queue_series : Bool
  pub plex_queue_season : Bool

abbrev pub is_handled : PlexSettings → Event → Bool
is_handled c library_new = c.procaddedmedia
is_handled c media_play = c.procmediaonplay
is_handled c other_event = false

-- `file_of` is `get_plex_file_name` with `path_mapping`, none where it raises, and `queue_file`
-- is `gen_subtitles_queue` with the key that is refreshed afterwards.
module _ {K P Q : Type 0} ⦃eq : Eq K⦄ (queue_file : P → K → Q → Q) (p : Plex K)
    (file_of : K → Option P) where
  -- The loop, which an error ends as well; none if the fuel is used up.
  unfoldable pub queue_episodes : ℕ → Bool → K → Q → Option Q
  unfolding get_next_plex_episode
  queue_episodes zero stay_in_season key q = none
  queue_episodes (suc fuel) stay_in_season key q = elim (file_of key) [
    | none ↦ some q
    | some file ↦ elim (get_next_plex_episode p key stay_in_season) [
      | none ↦ some (queue_file file key q)
      | some next ↦ queue_episodes fuel stay_in_season next (queue_file file key q)
    ]
  ]

  -- The next episode, if there is one; whether it could be named, and the queue.
  abbrev pub queue_next : Option K → Q → Bool × Q
  queue_next none q = (true, q)
  queue_next (some key) q = elim (file_of key) [
    | none ↦ (false, q)
    | some file ↦ (true, queue_file file key q)
  ]

  -- An error ends the handler, and what was queued stays.
  unfoldable pub receive_plex_webhook :
      ℕ → PlexSettings → (from_plex : Bool) → Event → K → Q → Option Q
  unfolding queue_episodes
  receive_plex_webhook fuel c from_plex event key q =
      if from_plex && is_handled c event
      then elim (file_of key) [
        | none ↦ some q
        | some file ↦
            let first = queue_file file key q in
            let next =
              if c.plex_queue_next_episode
              then queue_next (get_next_plex_episode p key false) first
              else (true, first) in
            let all = queue_episodes fuel c.plex_queue_season key next.1 in
            if next.0 && (c.plex_queue_series || c.plex_queue_season) then all else some next.1
      ]
      else some q
