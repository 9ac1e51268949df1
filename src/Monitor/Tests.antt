-- ===== src/Monitor/Tests.antt =====
-- Some runs of scripts/netmon.py, and the theorems on them at concrete inputs.
use mediahub_configs.Prelude.{
  ℕ, ◌+◌, ◌≡◌, ◌≢◌, ◌≤◌, refl, Bool, true, false, Option, none, some, List, [], ◌∷◌, All,
}
use mediahub_configs.Monitor.Sessions.{Session, playing, lan, plex_state, is_watched}
use mediahub_configs.Monitor.Modem.{Totals, delta, reset, deltas, totals}
use mediahub_configs.Prelude.Sort.{sort_by}
use mediahub_configs.Monitor.Buffering.{
  Event, buffering_events, scans, AreInOrder, scans-AreInOrder,
}
use mediahub_configs.Monitor.Main.{
  State, Measured, Run, probe, main, upload_every_s, main-is_watched, measured_times, AreSpaced,
  measured_times-AreSpaced,
}

abbrev music : Session
music = record {
  is_track = true;
  state = playing;
  location = none;
  is_local = true;
  bandwidth = 300;
  transcode = none;
}

abbrev film : Session
film = record {
  is_track = false;
  state = playing;
  location = some lan;
  is_local = true;
  bandwidth = 9000;
  transcode = some true;
}

abbrev rates : Bool → Measured
rates download = record { pin_up = true; alt_up = false; pin_down = download; alt_down = false }

abbrev no_state : State
no_state = record { last_up = 0; last_down = 0 }

is_a_test : (main 50000 (some (music ∷ [])) rates no_state).0.kind ≢ probe
unfolding main
is_a_test h = cc

main-is_watched_example :
    (0 + upload_every_s ≤ 50000)
    × ((sessions : List Session) × (some (music ∷ []) ≡ some sessions)
        × All (λ s. is_watched s ≡ false) sessions)
main-is_watched_example = main-is_watched 50000 (some (music ∷ [])) rates no_state is_a_test

abbrev runs : List Run
runs =
    record { at = 50000; answer = some []; run_tests = rates }
    ∷ record { at = 51800; answer = some []; run_tests = rates }
    ∷ record { at = 60200; answer = some (film ∷ []); run_tests = rates }
    ∷ record { at = 62000; answer = some []; run_tests = rates }
    ∷ []

two_measured : measured_times no_state runs ≡ 50000 ∷ 62000 ∷ []
unfolding main
two_measured = refl

measured_times-AreSpaced_example : AreSpaced 0 (measured_times no_state runs)
measured_times-AreSpaced_example = measured_times-AreSpaced runs no_state

-- Music on the LAN without a location counts as a remote stream, but not for the WAN.
counted_as_remote :
    (plex_state (some (music ∷ film ∷ []))).0
    ≡ some (record {
      plex_streams = 2;
      plex_remote = 1;
      plex_transcodes = 1;
      plex_burned_subs = 1;
      plex_wan_kbps = 0;
    })
unfolding plex_state
counted_as_remote = refl

-- A channel's counters, added up, and the rows of three readings; the modem restarts before the last.
abbrev count : ℕ → ℕ → ℕ → Totals
count good corr uncorr = record { good = good; corr = corr; uncorr = uncorr }

two_channels : totals (count 10 2 1 ∷ count 40 0 0 ∷ []) ≡ count 50 2 1
unfolding totals
two_channels = refl

restarted :
    deltas (some (count 10 2 1)) (count 50 2 1 ∷ count 3 0 0 ∷ []) ≡ delta 40 0 0 ∷ reset ∷ []
unfolding deltas
restarted = refl

abbrev report : ℕ → ℕ → Event
report at playback_ms = record {
  at = at;
  client = [];
  playback_ms = playback_ms;
  rating_key = 1;
  position_ms = 0;
  duration_ms = 0;
}

-- The log is not in order, and the second scan meets the same lines again.
abbrev logs : List (Bool × List (Option Event))
logs =
    (true, some (report 20 500) ∷ none ∷ some (report 10 9000) ∷ [])
    ∷ (true, some (report 20 500) ∷ some (report 10 9000) ∷ some (report 30 4000) ∷ [])
    ∷ []

two_scans : scans none logs ≡ (report 10 9000 ∷ report 20 500 ∷ []) ∷ (report 30 4000 ∷ []) ∷ []
unfolding buffering_events sort_by
two_scans = refl

scans-AreInOrder_example : AreInOrder (scans none logs)
scans-AreInOrder_example = scans-AreInOrder none logs
