-- ===== src/LiveTv/Tests.antt =====
-- Runs of the two programs, and the theorems on them at concrete inputs.
use mediahub_configs.Prelude.{
  ℕ, ◌+◌, ◌≤◌, ◌<◌, ◌≡◌, ◌⊎◌, refl, true, false, none, some, List, [], ◌∷◌, length, All, map,
}
use mediahub_configs.Prelude.Codes.{codes}
use mediahub_configs.Prelude.Dict.{get, put}
use mediahub_configs.LiveTv.Playlist.{
  Stream, Setting, is_included, override, playlist_of, publish, category_map,
}
use mediahub_configs.LiveTv.Tables.{logo_overrides}
use mediahub_configs.LiveTv.Stations.{station_map}
use mediahub_configs.LiveTv.Playlist.Publish.{publish_lem, kept_of, IsOneLine, IsWithout-any}
use mediahub_configs.LiveTv.Guide.{Program, Details, generate, programme_of}
use mediahub_configs.LiveTv.Guide.Requests.{Answers}
use mediahub_configs.LiveTv.Guide.Described.{
  generate-AreProgrammesOf, AreProgrammesOf, entries, shown,
}

abbrev setting : Setting
setting = record {
  username = codes "u";
  password = codes "p";
  lower = λ text. text;
  is_space = λ c. false;
}

abbrev categories : List (List ℕ × List ℕ)
categories =
    (codes "1", codes "MX: Mexico News") ∷ (codes "2", codes "USA NFL - Sunday Ticket") ∷ []

abbrev stream : List ℕ → List ℕ → Stream
stream name category = record {
  name = name;
  stream_id = codes "7";
  stream_icon = none;
  epg_channel_id = some (codes "e");
  category_id = category;
}

abbrev streams : List Stream
streams = stream (codes "N") (codes "1") ∷ stream (codes "USA NFL Network SD") (codes "2") ∷ []

by_exact_name :
    is_included setting (codes "USA NFL - Sunday Ticket") (codes "USA NFL Network") ≡ true
unfolding is_included get
by_exact_name = refl

not_by_part :
    is_included setting (codes "USA NFL - Sunday Ticket") (codes "USA NFL Network SD") ≡ false
unfolding is_included get
not_by_part = refl

by_keyword : is_included setting (codes "USA News") (codes "CNN UHD+") ≡ true
unfolding is_included get
by_keyword = refl

logo_by_part :
    override setting logo_overrides (codes "US: CBS 2 WFMY GREENSBORO")
    ≡ some (codes "http://185.193.88.130:80/images/d90cbfe9c7b343dd2eafef8117272284.png")
unfolding override
logo_by_part = refl

playlist_of_two :
    (playlist_of setting categories streams).text
    ≡ codes
        "#EXTM3U\n#EXTINF:-1 tvg-id=\"e\" tvg-name=\"N\" tvg-logo=\"None\" group-title=\"MX: Mexico News\",N\nhttp://link4tv.cc:80/u/p/7.ts\n"
unfolding playlist_of override is_included get put category_map
playlist_of_two = refl

publish_lem_example :
    let p = playlist_of setting categories streams in
    let kept = length (kept_of setting categories streams) in
    (kept + p.skipped ≡ 2)
    × (((kept < 100) × (publish setting categories none streams ≡ (none, true)))
        ⊎ ((100 ≤ kept) × (publish setting categories none streams ≡ (some p.text, false))))
publish_lem_example = publish_lem setting categories none streams

one_line : All (IsOneLine setting categories) (kept_of setting categories streams)
unfolding is_included get put override category_map
one_line = (
  record {
    name = IsWithout-any 10 (codes "N") refl;
    stream_id = IsWithout-any 10 (codes "7") refl;
    logo = IsWithout-any 10 (codes "None") refl;
    epg_id = IsWithout-any 10 (codes "e") refl;
    group = IsWithout-any 10 (codes "MX: Mexico News") refl;
  },
  tt,
)

abbrev program : Program
program = record { program_id = codes "EP1"; air_time = 100; duration = 60 }

abbrev game : List ℕ → Details
game id = record {
  titles = some (codes "College Football") ∷ [];
  episode_title = id;
  description1000 = [];
  description100 = [];
}

abbrev api : List (List ℕ) → List (List ℕ × Details)
api ids = map (λ id. (id, game id)) ids

title_of_a_game :
    (programme_of (codes "espn.us") program (game (codes "EP1"))).title
    ≡ codes "College Football: EP1"
unfolding programme_of
title_of_a_game = refl

api-Answers : Answers api game
api-Answers ids = refl

generate-AreProgrammesOf_example :
    ((generate (λ station. (program ∷ []) ∷ []) api).0
      ≡ shown (λ station. (program ∷ []) ∷ []) station_map)
    × AreProgrammesOf game
        (entries (λ station. (program ∷ []) ∷ []) station_map)
        (generate (λ station. (program ∷ []) ∷ []) api).1
generate-AreProgrammesOf_example =
    generate-AreProgrammesOf (λ station. (program ∷ []) ∷ []) api game api-Answers
