-- ===== src/Lidarr/Tests.antt =====
-- Runs of the scheduler and of the audit, and their theorems at concrete inputs.
use mediahub_configs.Prelude.{
  ℕ, zero, suc, ◌+◌, ◌≤◌, ◌<◌, ◌≡◌, ◌↔◌, ◌⊎◌, ◌∈◌, refl, inl, true, false, none, some, [], ◌∷◌,
  arith, length,
}
use mediahub_configs.Lidarr.Scheduler.{
  Album, Config, Answers, adding, found, is_new, is_fresh, scheduled_check,
}
use mediahub_configs.Lidarr.Scheduler.Laws.{scheduled_check-queues}
use mediahub_configs.Lidarr.Audit.{
  delete, review, apart, is_gross, decide, not_there, probed, Row, Options, no_report, audit_rows,
  next_cursor,
}
use mediahub_configs.Lidarr.Audit.Laws.{decide_delete_iff, next_cursor-audit_rows}
use mediahub_configs.Lidarr.Audit.Deletes.{IsBad, audit_rows-deletes}

abbrev config : Config
config = record {
  scheduler_interval = 60;
  retry_cooldown_seconds = 1000;
  scheduler_max_albums = 1;
  scheduler_auto_download = true;
}

abbrev reporting : Config
reporting = record config { scheduler_auto_download = false }

-- Album 1 was attempted long ago, 2 and 3 never, 4 waits already.
abbrev answers : Answers
answers = record {
  is_downloading = false;
  missing_albums =
      record { id = 1; missing_track_count = 2 }
      ∷ record { id = 2; missing_track_count = 1 }
      ∷ record { id = 3; missing_track_count = 1 }
      ∷ record { id = 4; missing_track_count = 1 }
      ∷ [];
  queued_ids = 4 ∷ [];
  history_ids_since = λ t. [];
  attempted_ids_since = λ t. elim t [ zero ↦ 1 ∷ [] | suc n ↦ [] ];
  current_download_id = none;
}

takes_two :
    scheduled_check config answers 9000 []
    ≡ record { enqueued = 2 ∷ []; notice = some (adding 1); last_reported_ids = [] }
unfolding scheduled_check
takes_two = refl

reports_two :
    scheduled_check reporting answers 9000 []
    ≡ record { enqueued = []; notice = some (found 1); last_reported_ids = 2 ∷ [] }
unfolding scheduled_check
reports_two = refl

scheduled_check-queues_example :
    ((id : ℕ)
      → id ∈ (scheduled_check config answers 9000 []).enqueued
      → (x : Album) × (x ∈ answers.missing_albums)
        × (x.id ≡ id)
        × (is_new config answers 9000 x ≡ true)
        × ((y : Album)
            → y ∈ answers.missing_albums
            → is_new config answers 9000 y ≡ true
            → is_fresh answers y ≡ true
            → is_fresh answers x ≡ true))
    × (0 < 1 → length (scheduled_check config answers 9000 []).enqueued ≤ 1)
scheduled_check-queues_example = scheduled_check-queues config answers 9000 []

abbrev options : Options
options = record {
  apply = true;
  no_delete = false;
  tolerance = 10;
  since = none;
  album_id = none;
  no_settle = false;
}

abbrev missing_row : Row
missing_row = record {
  id = 1;
  album_id = 5;
  track_number = 1;
  timestamp = 8000;
  duration = 200;
  acoustid_score = 950;
  last_resort = false;
  seen = not_there;
}

abbrev short_row : Row
short_row = record missing_row { id = 2; track_number = 2; seen = probed 100 200 true }

deletes_short :
    (audit_rows options (missing_row ∷ short_row ∷ []) no_report).deleted ≡ short_row ∷ []
unfolding audit_rows
deletes_short = refl

last_resort_kept : decide 100 200 200 950 10 true true ≡ review
unfolding decide
last_resort_kept = refl

decide_delete_iff_example : (decide 100 200 200 950 10 true false ≡ delete) ↔ (
    (false ≡ false)
    × (true ≡ true)
    × (10 < apart 100 200)
    × ((100 + 10 < 200) ⊎ ((is_gross 100 200 ≡ true) × (950 < 900))))
decide_delete_iff_example = decide_delete_iff 100 200 200 950 10 true false

next_cursor-audit_rows_example :
    next_cursor 9000 8700 (audit_rows options (missing_row ∷ short_row ∷ []) no_report).pending_ts
    < 8000
next_cursor-audit_rows_example =
    next_cursor-audit_rows options (missing_row ∷ short_row ∷ []) missing_row 9000 8700 (inl refl)
      (inl refl) (omega arith)

short_deleted : short_row ∈ (audit_rows options (missing_row ∷ short_row ∷ []) no_report).deleted
unfolding audit_rows
short_deleted = inl refl

audit_rows-deletes_example : (short_row ∈ (missing_row ∷ short_row ∷ [])) × IsBad options short_row
audit_rows-deletes_example =
    audit_rows-deletes options (missing_row ∷ short_row ∷ []) short_row short_deleted
