-- ===== src/Lidarr/Audit/Laws.antt =====
-- What the audit deletes, and that it comes back to what it could not judge.
use mediahub_configs.Prelude.{
  ℕ, ◌+◌, ◌-◌, ◌≤◌, ◌<◌, ◌≡◌, ◌↔◌, ◌⊎◌, inl, inr, refl, subst, Bool, true, false, List, [], ◌∷◌,
  ◌∈◌, keep_if, keep_if-mem, ltb, arith, mem-append_left, mem-append_right,
}
use mediahub_configs.Lidarr.Audit.{
  Verdict, ok, delete, review, unverifiable, apart, is_gross, verified_score, decide_file, decide,
  Seen, no_album, not_there, probed, Row, Options, Report, no_report, judge, audit_row, audit_rows,
  least, next_cursor, pending_expiry,
}

-- A file is deleted exactly if it is the downloader's own, is not a last resort, is off its length
-- by more than the tolerance, and is either shorter than its source by more than that, or more
-- than a quarter off while AcoustID has not verified it.
pub decide_delete_iff :
    (actual mb yt ac tol : ℕ) (identity_ok last_resort : Bool)
    → (decide actual mb yt ac tol identity_ok last_resort ≡ delete) ↔ (
        (last_resort ≡ false)
        × (identity_ok ≡ true)
        × (tol < apart actual mb)
        × ((actual + tol < yt) ⊎ ((is_gross actual mb ≡ true) × (ac < verified_score))))
unfolding decide decide_file
decide_delete_iff actual mb yt ac tol identity_ok last_resort = ground arith

-- The verdict on a row that was probed.
abbrev pub verdict_of : Options → Row → (actual mb : ℕ) → Bool → Verdict
verdict_of options row actual mb identity_ok =
    decide actual mb row.duration row.acoustid_score options.tolerance identity_ok row.last_resort

-- The row waits: its file is not there, or is not the downloader's.
abbrev pub IsWaiting : Options → Row → Type 0
IsWaiting options row =
    (row.seen ≡ not_there)
    ⊎ ((actual : ℕ) × (mb : ℕ) × (identity_ok : Bool) × (row.seen ≡ probed actual mb identity_ok)
        × (verdict_of options row actual mb identity_ok ≡ unverifiable))

judge-pending_ts :
    (options : Options) (row : Row) (v : Verdict) (report : Report) (t : ℕ)
    → t ∈ report.pending_ts
    → t ∈ (judge options row v report).pending_ts
judge-pending_ts options row ok report t m = m
judge-pending_ts options row delete report t m = m
judge-pending_ts options row review report t m = m
judge-pending_ts options row unverifiable report t m = mem-append_left t report.pending_ts _ m

audit_row-pending_ts :
    (options : Options) (row : Row) (seen : Seen) (report : Report) (t : ℕ)
    → row.seen ≡ seen
    → t ∈ report.pending_ts
    → t ∈ (audit_row options row report).pending_ts
unfolding audit_row
audit_row-pending_ts options row no_album report t p m = rw (p, audit_row) m
audit_row-pending_ts options row not_there report t p m =
    rw (p, audit_row) (mem-append_left t report.pending_ts _ m)
audit_row-pending_ts options row (probed actual mb identity_ok) report t p m =
    rw (p, audit_row)
      (judge-pending_ts options row (verdict_of options row actual mb identity_ok) report t m)

audit_row-waits :
    (options : Options) (row : Row) (report : Report)
    → IsWaiting options row
    → row.timestamp ∈ (audit_row options row report).pending_ts
unfolding audit_row
audit_row-waits options row report (inl p) =
    rw (p, audit_row) (mem-append_right row.timestamp report.pending_ts _ (inl refl))
audit_row-waits options row report (inr (actual, mb, identity_ok, p, q)) =
    rw (p, audit_row, q) (mem-append_right row.timestamp report.pending_ts _ (inl refl))

audit_rows-pending_ts :
    (options : Options) (rows : List Row) (report : Report) (t : ℕ)
    → t ∈ report.pending_ts
    → t ∈ (audit_rows options rows report).pending_ts
unfolding audit_rows
audit_rows-pending_ts options [] report t m = m
audit_rows-pending_ts options (row ∷ rows) report t m =
    audit_rows-pending_ts options rows (audit_row options row report) t
      (audit_row-pending_ts options row row.seen report t refl m)

audit_rows-waits :
    (options : Options) (rows : List Row) (report : Report) (row : Row)
    → row ∈ rows
    → IsWaiting options row
    → row.timestamp ∈ (audit_rows options rows report).pending_ts
unfolding audit_rows
audit_rows-waits options [] report row m waits = absurd m
audit_rows-waits options (r ∷ rows) report row (inl p) waits =
    audit_rows-pending_ts options rows (audit_row options r report) row.timestamp (
      subst (λ x. row.timestamp ∈ (audit_row options x report).pending_ts) p
        (audit_row-waits options row report waits))
audit_rows-waits options (r ∷ rows) report row (inr m) waits =
    audit_rows-waits options rows (audit_row options r report) row m waits

least-le : (t : ℕ) (ts : List ℕ) (u : ℕ) → u ∈ (t ∷ ts) → least t ts ≤ u
least-le t [] u (inl p) = omega arith
least-le t [] u (inr m) = absurd m
least-le t (v ∷ ts) u (inl p) = omega (arith, least-le v ts v (inl refl))
least-le t (v ∷ ts) u (inr m) = omega (arith, least-le v ts u m)

next_cursor-lt :
    (now cutoff : ℕ) (pending_ts recent : List ℕ) (t : ℕ)
    → keep_if (λ u. ltb (now - pending_expiry) u) pending_ts ≡ recent
    → t ∈ recent
    → 0 < t
    → next_cursor now cutoff pending_ts < t
unfolding next_cursor
next_cursor-lt now cutoff pending_ts [] t p m positive = absurd m
next_cursor-lt now cutoff pending_ts (u ∷ us) t p m positive =
    rw (p, next_cursor) (omega (arith, least-le u us t m))

-- The cursor that is saved stays before each row that waits and is not an hour old, so that the
-- next run selects it again.
pub next_cursor-audit_rows :
    (options : Options) (rows : List Row) (row : Row) (now cutoff : ℕ)
    → row ∈ rows
    → IsWaiting options row
    → now - pending_expiry < row.timestamp
    → next_cursor now cutoff (audit_rows options rows no_report).pending_ts < row.timestamp
next_cursor-audit_rows options rows row now cutoff m waits recent =
    next_cursor-lt now cutoff (audit_rows options rows no_report).pending_ts _ row.timestamp refl
      (keep_if-mem row.timestamp (λ u. ltb (now - pending_expiry) u) _
        (audit_rows-waits options rows no_report row m waits) (ground (arith, recent)))
      (omega (arith, recent))
