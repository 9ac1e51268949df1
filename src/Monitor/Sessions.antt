-- ===== src/Monitor/Sessions.antt =====
-- netmon.py: `plex_state`, the sessions of Plex and what is counted of them.
use mediahub_configs.Prelude.{
  ℕ, ◌+◌, ◌≡◌, Bool, true, false, not, ◌&&◌, ◌||◌, Option, none, some, List, [], ◌∷◌, if◌then◌else◌,
  All, length, keep_if, arith, refl,
}

pub data PlayerState : Type 0 where
  playing buffering paused : PlayerState

pub data Location : Type 0 where
  lan wan : Location

pub record Session : Type 0 where
  pub is_track : Bool
  pub state : PlayerState
  pub location : Option Location
  pub is_local : Bool
  pub bandwidth : ℕ
  -- Whether it burns subtitles in, if it transcodes.
  pub transcode : Option Bool

pub record Summary : Type 0 where
  pub plex_streams : ℕ
  pub plex_remote : ℕ
  pub plex_transcodes : ℕ
  pub plex_burned_subs : ℕ
  pub plex_wan_kbps : ℕ

-- Without a location a local player is on the LAN.
abbrev pub is_remote : Session → Bool
is_remote s = elim s.location [ none ↦ not s.is_local | some lan ↦ false | some wan ↦ true ]

abbrev pub is_active_player : Session → Bool
is_active_player s = elim s.state [ playing ↦ true | buffering ↦ true | paused ↦ false ]

-- A video that plays; music does not count.
abbrev pub is_watched : Session → Bool
is_watched s = is_active_player s && not s.is_track

abbrev pub is_transcode : Session → Bool
is_transcode s = elim s.transcode [ none ↦ false | some burns ↦ true ]

abbrev pub is_burned : Session → Bool
is_burned s = elim s.transcode [ none ↦ false | some burns ↦ burns ]

-- For this column only a session with the location "lan" is not remote.
abbrev pub is_listed_remote : Session → Bool
is_listed_remote s = elim s.location [ none ↦ true | some lan ↦ false | some wan ↦ true ]

-- The loop, with its four variables.
record Counted : Type 0 where
  pub any_active : Bool
  pub wan_kbps : ℕ
  pub transcodes : ℕ
  pub burned : ℕ

abbrev counted_one : Session → Counted → Counted
counted_one s c = record {
  any_active = c.any_active || is_watched s;
  wan_kbps = if is_remote s then c.wan_kbps + s.bandwidth else c.wan_kbps;
  transcodes = if is_transcode s then c.transcodes + 1 else c.transcodes;
  burned = if is_burned s then c.burned + 1 else c.burned;
}

counted_from : List Session → Counted → Counted
counted_from [] c = c
counted_from (s ∷ ss) c = counted_from ss (counted_one s c)

abbrev nothing_counted : Counted
nothing_counted = record { any_active = false; wan_kbps = 0; transcodes = 0; burned = 0 }

-- None where Plex cannot be read.
unfoldable pub plex_state : Option (List Session) → Option Summary × Option Bool
unfolding counted_from
plex_state none = (none, none)
plex_state (some sessions) =
    let c = counted_from sessions nothing_counted in
    (
      some (record {
        plex_streams = length sessions;
        plex_remote = length (keep_if is_listed_remote sessions);
        plex_transcodes = c.transcodes;
        plex_burned_subs = c.burned;
        plex_wan_kbps = c.wan_kbps;
      }),
      some c.any_active,
    )

counted_from-any_active :
    (ss : List Session) (c : Counted)
    → (counted_from ss c).any_active ≡ false
    → (c.any_active ≡ false) × All (λ s. is_watched s ≡ false) ss
unfolding counted_from
counted_from-any_active [] c h = (h, tt)
counted_from-any_active (s ∷ ss) c h =
    let (before, rest) = counted_from-any_active ss (counted_one s c) h in
    (ground (arith, before), (ground (arith, before), rest))

-- Plex was read and nobody watches a video.
pub plex_state-idle :
    (answer : Option (List Session))
    → (plex_state answer).1 ≡ some false
    → (sessions : List Session) × (answer ≡ some sessions)
      × All (λ s. is_watched s ≡ false) sessions
unfolding plex_state
plex_state-idle none h = absurd (cc h)
plex_state-idle (some sessions) h =
    (sessions, refl, (counted_from-any_active sessions nothing_counted (cc h)).1)
