-- ===== src/Subgen/PlexTests.antt =====
-- A small show, and the theorems on the webhook of Plex at it.
use mediahub_configs.Prelude.{
  ℕ, ◌≡◌, refl, true, false, Option, some, List, [], ◌∷◌, if◌then◌else◌, arith, ◌==◌,
}
use mediahub_configs.Prelude.Equality.{nat_eq}
use mediahub_configs.Subgen.Queue.{Queue, empty_queue}
use mediahub_configs.Subgen.Choice.Skip.{Content}
use mediahub_configs.Subgen.Plex.{
  Episode, Season, Plex, PlexSettings, queue_episodes, get_next_plex_episode,
}
use mediahub_configs.Subgen.Plex.Next.{IsListed}
use mediahub_configs.Subgen.Plex.InSeason.{queue_episodes-queue_all}
use mediahub_configs.Subgen.Plex.InShow.{Aired, queue_episodes-episodes_of}

-- Show 1 has the seasons 10 and 20, with the episodes 11 and 12, and 21.
abbrev episode : ℕ → ℕ → ℕ → Episode ℕ
episode key n season = record { rating_key = key; index = some n; parent_index = some season }

abbrev first_season : List (Episode ℕ)
first_season = episode 11 1 1 ∷ episode 12 2 1 ∷ []

abbrev second_season : List (Episode ℕ)
second_season = episode 21 1 2 ∷ []

abbrev seasons : List (Season ℕ)
seasons =
    record { rating_key = 10; index = some 1 } ∷ record { rating_key = 20; index = some 2 } ∷ []

abbrev plex : Plex ℕ
plex = record {
  parents = λ key. some (some 1, some (if key == 21 then 20 else 10));
  seasons = λ show. some seasons;
  episodes = λ season. some (if season == 10 then first_season else second_season);
}

abbrev file : ℕ → ℕ
file key = key

abbrev file_of : ℕ → Option ℕ
file_of key = some key

abbrev note : ℕ → ℕ → List ℕ → List ℕ
note path key q = path ∷ q

first-IsListed : IsListed plex 1 10 seasons first_season
first-IsListed = record {
  has_seasons = refl;
  has_episodes = refl;
  parents = (refl, (refl, tt));
  numbers = (refl, (refl, tt));
  distinct = ((omega arith, tt), (tt, tt));
}

second-IsListed : IsListed plex 1 20 seasons second_season
second-IsListed = record {
  has_seasons = refl;
  has_episodes = refl;
  parents = (refl, tt);
  numbers = (refl, tt);
  distinct = (tt, tt);
}

abbrev second : Aired ℕ
second = record {
  season = record { rating_key = 20; index = some 2 };
  first = episode 21 1 2;
  rest = [];
}

in_one_season : queue_episodes note plex file_of 2 true 11 [] ≡ some (12 ∷ 11 ∷ [])
in_one_season =
    queue_episodes-queue_all note plex file_of file 1 10 seasons [] (episode 11 1 1)
      (episode 12 2 1 ∷ []) 2 [] first-IsListed (refl, (refl, tt)) (omega arith)

queue_episodes-episodes_of_example :
    queue_episodes note plex file_of 5 false 11 [] ≡ some (21 ∷ 12 ∷ 11 ∷ [])
queue_episodes-episodes_of_example =
    queue_episodes-episodes_of note plex file_of file 1 []
      (record { rating_key = 10; index = some 1 }) (second ∷ []) [] (episode 11 1 1)
      (episode 12 2 1 ∷ []) 5 [] (refl, (refl, tt)) first-IsListed (refl, (refl, tt))
      (refl, (refl, tt)) (second-IsListed, (refl, tt), (refl, tt), tt) (omega arith)

abbrev series : PlexSettings
series = record {
  procaddedmedia = false;
  procmediaonplay = true;
  plex_queue_next_episode = false;
  plex_queue_series = true;
  plex_queue_season = false;
}

abbrev no_tasks : Queue ℕ (Content ℕ)
no_tasks = empty_queue

-- Without an episode 2 the season has three episodes, and 3 counts as the last of them.
abbrev with_gap : Plex ℕ
with_gap = record {
  parents = λ key. some (some 1, some 10);
  seasons = λ show. some seasons;
  episodes = λ season. some (
      if season == 10
      then episode 11 1 1 ∷ episode 13 3 1 ∷ episode 14 4 1 ∷ []
      else second_season);
}

skips_last : get_next_plex_episode with_gap 13 false ≡ some 21
unfolding get_next_plex_episode
skips_last = refl
