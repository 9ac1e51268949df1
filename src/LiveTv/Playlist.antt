-- ===== src/LiveTv/Playlist.antt =====
-- stacks/threadfin/generate_live_m3u.py: the channels that are taken, and the playlist of them.
pub mod Publish
use mediahub_configs.Prelude.{
  ℕ, zero, suc, ◌+◌, Bool, true, false, not, ◌&&◌, ◌||◌, Option, none, some, List, [], ◌∷◌, ◌++◌,
  if◌then◌else◌, ltb, leb, length, any, keep_if, map, concat, ◌==◌,
}
use mediahub_configs.Prelude.Equality.{◌=?◌, list_eq, nat_eq}
use mediahub_configs.Prelude.Dict.{get, put}
use mediahub_configs.Prelude.Text.{is_part, strip_left, strip_right}
use mediahub_configs.Prelude.Codes.{codes}
use mediahub_configs.LiveTv.Tables.{
  logo_overrides, epg_id_overrides, full_groups, curated_groups, exact_names,
}

-- A stream of the provider; what JSON has as null is none.
pub record Stream : Type 0 where
  pub name : List ℕ
  pub stream_id : List ℕ
  pub stream_icon : Option (List ℕ)
  pub epg_channel_id : Option (List ℕ)
  pub category_id : List ℕ

-- What is outside of the program: the account, and Python's `str.lower` and `str.isspace`.
pub record Setting : Type 0 where
  pub username : List ℕ
  pub password : List ℕ
  pub lower : List ℕ → List ℕ
  pub is_space : ℕ → Bool

abbrev pub min_channels : ℕ
min_channels = 100

-- How a value is written into the playlist.
abbrev pub written : Option (List ℕ) → List ℕ
written none = codes "None"
written (some text) = text

abbrev pub is_filled : Option (List ℕ) → Bool
is_filled none = false
is_filled (some []) = false
is_filled (some (x ∷ xs)) = true

-- `cat_map`, entry by entry.
unfoldable pub category_map :
    List (List ℕ × List ℕ) → List (List ℕ × List ℕ) → List (List ℕ × List ℕ)
category_map d [] = d
category_map d ((id, name) ∷ categories) = category_map (put id name d) categories

abbrev pub is_exact : List ℕ → List ℕ → Bool
is_exact group name = elim (get group exact_names) [
  | none ↦ false
  | some names ↦ any (λ n. n =? name) names
]

-- The file so far, and how many streams were kept and skipped.
pub record Playlist : Type 0 where
  pub text : List ℕ
  pub kept : ℕ
  pub skipped : ℕ

module _ (s : Setting) where
  -- The value of the first key that the name holds, in whatever case.
  unfoldable pub override : List (List ℕ × List ℕ) → List ℕ → Option (List ℕ)
  override [] name = none
  override ((key, value) ∷ table) name =
      let rest = override table name in
      if is_part (s.lower key) (s.lower name) then some value else rest

  -- `text.lower().rstrip("*").strip()`
  abbrev pub plain : List ℕ → List ℕ
  plain text =
      strip_right s.is_space (strip_left s.is_space (strip_right (λ c. c == 42) (s.lower text)))

  unfoldable pub matches_curated : List ℕ → List (List ℕ) → Bool
  matches_curated name keywords = any (λ kw. is_part (plain kw) (plain name)) keywords

  abbrev pub logo_of : Stream → List ℕ
  logo_of stream = elim (override logo_overrides stream.name) [
    | none ↦ written stream.stream_icon
    | some logo ↦ logo
  ]

  abbrev pub epg_id_of : Stream → List ℕ
  epg_id_of stream =
      if is_filled stream.epg_channel_id
      then written stream.epg_channel_id
      else elim (override epg_id_overrides stream.name) [
        | none ↦ written stream.epg_channel_id
        | some id ↦ id
      ]

  -- `include`
  unfoldable pub is_included : List ℕ → List ℕ → Bool
  unfolding matches_curated
  is_included group name =
      if any (λ g. g =? group) full_groups then true else elim (get group curated_groups) [
        | some keywords ↦ matches_curated name keywords
        | none ↦ is_exact group name
      ]

  module _ (categories : List (List ℕ × List ℕ)) where
    abbrev pub group_of : Stream → List ℕ
    group_of stream = elim (get stream.category_id (category_map [] categories)) [
      | none ↦ codes "Uncategorized"
      | some group ↦ group
    ]

    abbrev pub is_kept : Stream → Bool
    is_kept stream = is_included (group_of stream) stream.name

    -- The two lines of a channel, and what they are put together from.
    abbrev pub extinf_parts : Stream → List (List ℕ)
    extinf_parts stream =
        codes "#EXTINF:-1 tvg-id=\""
        ∷ epg_id_of stream
        ∷ codes "\" tvg-name=\""
        ∷ stream.name
        ∷ codes "\" tvg-logo=\""
        ∷ logo_of stream
        ∷ codes "\" group-title=\""
        ∷ group_of stream
        ∷ codes "\","
        ∷ stream.name
        ∷ []

    abbrev pub extinf_line : Stream → List ℕ
    extinf_line stream = concat (extinf_parts stream)

    abbrev pub url_parts : Stream → List (List ℕ)
    url_parts stream =
        codes "http://link4tv.cc:80/"
        ∷ s.username
        ∷ codes "/"
        ∷ s.password
        ∷ codes "/"
        ∷ stream.stream_id
        ∷ codes ".ts"
        ∷ []

    abbrev pub url_line : Stream → List ℕ
    url_line stream = concat (url_parts stream)

    abbrev pub with_channel : Playlist → Stream → Playlist
    with_channel p stream = record {
      text = p.text ++ (extinf_line stream ++ codes "\n") ++ (url_line stream ++ codes "\n");
      kept = p.kept + 1;
      skipped = p.skipped;
    }

    unfoldable pub with_stream : Playlist → Stream → Playlist
    with_stream p stream =
        if is_kept stream
        then with_channel p stream
        else record { text = p.text; kept = p.kept; skipped = p.skipped + 1 }

    unfoldable pub playlist_from : Playlist → List Stream → Playlist
    unfolding with_stream
    playlist_from p [] = p
    playlist_from p (stream ∷ streams) = playlist_from (with_stream p stream) streams

    unfoldable pub playlist_of : List Stream → Playlist
    unfolding playlist_from
    playlist_of streams =
        playlist_from (record { text = codes "#EXTM3U\n"; kept = 0; skipped = 0 }) streams

    -- What stands in the output afterwards, and whether the run was aborted: the file is only
    -- replaced, as a whole, by a playlist that is large enough.
    unfoldable pub publish : Option (List ℕ) → List Stream → Option (List ℕ) × Bool
    unfolding playlist_of
    publish output streams =
        let p = playlist_of streams in
        if ltb p.kept min_channels then (output, true) else (some p.text, false)
