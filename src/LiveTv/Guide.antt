-- ===== src/LiveTv/Guide.antt =====
-- stacks/schedulesdirect-epg/generate_schedulesdirect_epg.py: the programmes of the mapped channels.
pub mod Requests
pub mod Described
use mediahub_configs.Prelude.{
  ℕ, zero, suc, ◌+◌, ◌≤◌, ◌<◌, ◌≡◌, refl, Bool, true, false, Option, none, some, List, [], ◌∷◌,
  ◌++◌, if◌then◌else◌, length, any, map, concat, take, drop,
}
use mediahub_configs.Prelude.Equality.{◌=?◌, list_eq, nat_eq}
use mediahub_configs.Prelude.Dict.{get, put}
use mediahub_configs.Prelude.Codes.{codes}
use mediahub_configs.LiveTv.Stations.{station_map}

-- A program of a schedule; its time is in seconds, and a missing duration is 0.
pub record Program : Type 0 where
  pub program_id : List ℕ
  pub air_time : ℕ
  pub duration : ℕ

-- What `/programs` says of one; a missing text is empty, a missing "title120" is none.
pub record Details : Type 0 where
  pub titles : List (Option (List ℕ))
  pub episode_title : List ℕ
  pub description1000 : List (List ℕ)
  pub description100 : List (List ℕ)

abbrev pub no_details : Details
no_details = record { titles = []; episode_title = []; description1000 = []; description100 = [] }

pub record Programme : Type 0 where
  pub channel : List ℕ
  pub start : ℕ
  pub stop : ℕ
  pub title : List ℕ
  pub sub_title : List ℕ
  pub desc : List ℕ

abbrev pub base_title : List (Option (List ℕ)) → List ℕ
base_title [] = codes "Unknown"
base_title (none ∷ titles) = codes "Unknown"
base_title (some title ∷ titles) = title

-- The match is put into the title, so that two games are not taken for one.
abbrev pub full_title : List ℕ → List ℕ → List ℕ
full_title title [] = title
full_title title (c ∷ subtitle) = title ++ codes ": " ++ (c ∷ subtitle)

abbrev pub description : List (List ℕ) → List (List ℕ) → List ℕ
description (long ∷ longs) shorts = long
description [] (short ∷ shorts) = short
description [] [] = []

unfoldable pub programme_of : List ℕ → Program → Details → Programme
programme_of tvg_id p d = record {
  channel = tvg_id;
  start = p.air_time;
  stop = p.air_time + p.duration;
  title = full_title (base_title d.titles) d.episode_title;
  sub_title = d.episode_title;
  desc = description d.description1000 d.description100;
}

-- The days of an answer to `/schedules`, one after the other.
unfoldable pub schedules_of :
    (List ℕ → List (List Program)) → List (List ℕ × List ℕ) → List (List ℕ × List Program)
schedules_of schedules [] = []
schedules_of schedules ((tvg_id, station) ∷ stations) =
    (tvg_id, concat (schedules station)) ∷ schedules_of schedules stations

-- `set.update`, one after the other.
unfoldable pub with_id : List ℕ → List (List ℕ) → List (List ℕ)
with_id id ids = if any (λ i. i =? id) ids then ids else ids ++ id ∷ []

unfoldable pub with_ids : List Program → List (List ℕ) → List (List ℕ)
unfolding with_id
with_ids [] ids = ids
with_ids (p ∷ ps) ids = with_ids ps (with_id p.program_id ids)

unfoldable pub all_program_ids : List (List ℕ × List Program) → List (List ℕ) → List (List ℕ)
unfolding with_ids
all_program_ids [] ids = ids
all_program_ids ((_, programs) ∷ channels) ids = all_program_ids channels (with_ids programs ids)

abbrev pub chunk_size : ℕ
chunk_size = 500

-- `for i in range(0, len(ids), 500)`; a chunk is not empty, so a round for each id is enough.
unfoldable pub chunks : ℕ → ℕ → List (List ℕ) → List (List (List ℕ))
chunks zero size ids = []
chunks (suc fuel) size [] = []
chunks (suc fuel) size (i ∷ ids) = take size (i ∷ ids) ∷ chunks fuel size (drop size (i ∷ ids))

unfoldable pub chunks_of : List (List ℕ) → List (List (List ℕ))
unfolding chunks
chunks_of ids = chunks (length ids) chunk_size ids

-- `details_map[d["programID"]] = d`
unfoldable pub with_answers :
    List (List ℕ × Details) → List (List ℕ × Details) → List (List ℕ × Details)
with_answers [] d = d
with_answers ((id, details) ∷ answers) d = with_answers answers (put id details d)

module _ (api : List (List ℕ) → List (List ℕ × Details)) where
  unfoldable pub details_map :
      List (List (List ℕ)) → List (List ℕ × Details) → List (List ℕ × Details)
  unfolding with_answers
  details_map [] d = d
  details_map (chunk ∷ more) d = details_map more (with_answers (api chunk) d)

abbrev pub details_or_none : Option Details → Details
details_or_none none = no_details
details_or_none (some d) = d

module _ (details : List ℕ → Details) where
  unfoldable pub programmes_of : List ℕ → List Program → List Programme
  unfolding programme_of
  programmes_of tvg_id [] = []
  programmes_of tvg_id (p ∷ ps) =
      programme_of tvg_id p (details p.program_id) ∷ programmes_of tvg_id ps

  -- The channels that have programs, and all programmes.
  unfoldable pub guide_of : List (List ℕ × List Program) → List (List ℕ) × List Programme
  unfolding programmes_of
  guide_of [] = ([], [])
  guide_of ((tvg_id, []) ∷ channels) = guide_of channels
  guide_of ((tvg_id, p ∷ ps) ∷ channels) =
      let (ids, programmes) = guide_of channels in
      (tvg_id ∷ ids, programmes_of tvg_id (p ∷ ps) ++ programmes)

-- The guide, from what the two calls answer; the order of the set of ids is that of the schedules.
unfoldable pub generate :
    (List ℕ → List (List Program))
    → (List (List ℕ) → List (List ℕ × Details))
    → List (List ℕ) × List Programme
unfolding schedules_of all_program_ids chunks_of details_map guide_of
generate schedules api =
    let channels = schedules_of schedules station_map in
    let found = details_map api (chunks_of (all_program_ids channels [])) [] in
    guide_of (λ id. details_or_none (get id found)) channels
