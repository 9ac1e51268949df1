-- ===== src/Lidarr/Audit.antt =====
-- scripts/lidarr-ytdl-audit.py: `decide` and the run over the downloaded tracks. Lengths are in one
-- unit, scores in thousandths, times in seconds. What Lidarr and ffprobe say of a row stands in it.
-- The reasons, and the linking of files that Lidarr has left aside, are not modelled.
pub mod Laws
pub mod Deletes
use mediahub_configs.Prelude.{
  ℕ, ◌+◌, ◌-◌, ◌*◌, min, Bool, true, false, not, ◌&&◌, ◌||◌, Option, none, some, List, [], ◌∷◌,
  ◌++◌, if◌then◌else◌, length, keep_if, any, ltb, leb, ◌==◌,
}
use mediahub_configs.Prelude.Equality.{Eq, ◌=?◌, nat_eq}
use mediahub_configs.Prelude.Sort.{sort_by}

abbrev pub verified_score : ℕ
verified_score = 900

abbrev pub pending_expiry : ℕ
pending_expiry = 3600

abbrev pub settle_seconds : ℕ
settle_seconds = 300

pub data Verdict : Type 0 where
  ok : Verdict
  delete : Verdict
  review : Verdict
  unverifiable : Verdict

-- abs(a - b)
abbrev pub apart : ℕ → ℕ → ℕ
apart a b = (a - b) + (b - a)

-- More than a quarter off; without a length from MusicBrainz it counts as wholly off.
abbrev pub is_gross : ℕ → ℕ → Bool
is_gross actual mb = if mb == 0 then true else ltb mb (4 * apart actual mb)

-- `_decide`
unfoldable pub decide_file : (actual mb yt ac tol : ℕ) → Bool → Verdict
decide_file actual mb yt ac tol identity_ok =
    if not identity_ok
    then unverifiable
    else if leb (apart actual mb) tol
    then ok
    else if ltb 0 yt && ltb (actual + tol) yt
    then delete
    else if is_gross actual mb && ltb ac verified_score
    then delete
    else review

abbrev pub spared : Bool → Verdict → Verdict
spared true delete = review
spared last_resort verdict = verdict

unfoldable pub decide : (actual mb yt ac tol : ℕ) → Bool → Bool → Verdict
unfolding decide_file
decide actual mb yt ac tol identity_ok last_resort =
    spared last_resort (decide_file actual mb yt ac tol identity_ok)

-- What the run finds for a row: Lidarr does not know the album; the track has no file there, or the
-- file cannot be probed; or its lengths, and if it is the downloader's.
pub data Seen : Type 0 where
  no_album : Seen
  not_there : Seen
  probed : (actual mb : ℕ) → (identity_ok : Bool) → Seen

pub record Row : Type 0 where
  pub id : ℕ
  pub album_id : ℕ
  pub track_number : ℕ
  pub timestamp : ℕ
  pub duration : ℕ
  pub acoustid_score : ℕ
  pub last_resort : Bool
  pub seen : Seen

pub record Options : Type 0 where
  pub apply : Bool
  pub no_delete : Bool
  pub tolerance : ℕ
  pub since : Option ℕ
  pub album_id : Option ℕ
  pub no_settle : Bool

-- What the run has counted and done.
pub record Report : Type 0 where
  pub checked : ℕ
  pub bad : ℕ
  pub pending : ℕ
  pub reviews : List Row
  pub reports : List Row
  pub pending_ts : List ℕ
  pub deleted : List Row

abbrev pub no_report : Report
no_report = record {
  checked = 0;
  bad = 0;
  pending = 0;
  reviews = [];
  reports = [];
  pending_ts = [];
  deleted = [];
}

abbrev pub same_key : Row → Row → Bool
same_key a b = a.album_id == b.album_id && a.track_number == b.track_number

-- latest[(album_id, track_number)] = r
abbrev pub replace : Row → List Row → List Row
replace row [] = row ∷ []
replace row (r ∷ rows) = if same_key r row then row ∷ rows else r ∷ replace row rows

pub latest_from : List Row → List Row → List Row
latest_from latest [] = latest
latest_from latest (row ∷ rows) = latest_from (replace row latest) rows

abbrev pub album_of : Row → ℕ
album_of row = row.album_id

abbrev pub track_of : Row → ℕ
track_of row = row.track_number

abbrev pub wait : Row → Report → Report
wait row report = record report {
  pending = report.pending + 1;
  pending_ts = report.pending_ts ++ row.timestamp ∷ [];
}

-- Is a bad file deleted, or only reported?
abbrev pub deletes : Options → Bool
deletes options = options.apply && not options.no_delete

abbrev pub judge : Options → Row → Verdict → Report → Report
judge options row unverifiable report = wait row report
judge options row ok report = record report { checked = report.checked + 1 }
judge options row review report = record report {
  checked = report.checked + 1;
  reviews = report.reviews ++ row ∷ [];
}
judge options row delete report = record report {
  checked = report.checked + 1;
  bad = report.bad + 1;
  reports = report.reports ++ row ∷ [];
  deleted = if deletes options then report.deleted ++ row ∷ [] else report.deleted;
}

-- One row of the loop.
unfoldable pub audit_row : Options → Row → Report → Report
unfolding decide
audit_row options row report = elim row.seen [
  | no_album ↦ report
  | not_there ↦ wait row report
  | probed actual mb identity_ok ↦
      judge options row
        (decide actual mb row.duration row.acoustid_score options.tolerance identity_ok
          row.last_resort)
        report
]

unfoldable pub audit_rows : Options → List Row → Report → Report
unfolding audit_row
audit_rows options [] report = report
audit_rows options (row ∷ rows) report = audit_rows options rows (audit_row options row report)

-- The rows that the query gives, in the order of their times.
abbrev pub is_selected : Options → ℕ → ℕ → Row → Bool
is_selected options cursor cutoff row =
    ltb cursor row.timestamp && leb row.timestamp cutoff && is_album options.album_id row
  where
    is_album : Option ℕ → Row → Bool
    is_album none row = true
    is_album (some id) row = row.album_id == id

abbrev pub least : ℕ → List ℕ → ℕ
least t [] = t
least t (u ∷ us) = min t (least u us)

-- The cursor that is saved.
unfoldable pub next_cursor : ℕ → ℕ → List ℕ → ℕ
next_cursor now cutoff pending_ts = elim (keep_if (λ t. ltb (now - pending_expiry) t) pending_ts) [
  | [] ↦ cutoff
  | t ∷ ts ↦ least t ts - 1
]

abbrev pub since_or : ℕ → Option ℕ → ℕ
since_or cursor none = cursor
since_or cursor (some since) = since

-- The run while the downloader is not busy: the report, and the cursor if `--apply` saves it.
-- `rows` are the downloads in the order of their times.
unfoldable pub audit : Options → (now cursor : ℕ) → List Row → Report × Option ℕ
unfolding latest_from audit_rows next_cursor sort_by
audit options now cursor rows =
    let cutoff = if options.no_settle then now else now - settle_seconds in
    let from = since_or cursor options.since in
    let latest = latest_from [] (keep_if (is_selected options from cutoff) rows) in
    let report = audit_rows options (sort_by album_of (sort_by track_of latest)) no_report in
    (report, if options.apply then some (next_cursor now cutoff report.pending_ts) else none)
