-- ===== src/Lidarr/Audit/Deletes.antt =====
-- Which rows the run deletes.
use mediahub_configs.Prelude.{
  ℕ, ◌≡◌, refl, sym, subst, ◌⊎◌, inl, inr, Bool, true, List, [], ◌∷◌, ◌∈◌, Bool-cases,
  mem_of_mem_append,
}
use mediahub_configs.Lidarr.Audit.{
  Verdict, ok, delete, review, unverifiable, Seen, no_album, not_there, probed, Row, Options,
  Report, no_report, deletes, judge, audit_row, audit_rows,
}
use mediahub_configs.Lidarr.Audit.Laws.{verdict_of}

-- The row was probed, its verdict is "delete", and the run deletes.
abbrev pub IsBad : Options → Row → Type 0
IsBad options row =
    (deletes options ≡ true)
    × ((actual : ℕ) × (mb : ℕ) × (identity_ok : Bool) × (row.seen ≡ probed actual mb identity_ok)
        × (verdict_of options row actual mb identity_ok ≡ delete))

judge-deleted :
    (options : Options) (r row : Row) (v : Verdict) (report : Report)
    → row ∈ (judge options r v report).deleted
    → (row ∈ report.deleted) ⊎ ((row ≡ r) × (deletes options ≡ true) × (v ≡ delete))
judge-deleted options r row ok report m = inl m
judge-deleted options r row review report m = inl m
judge-deleted options r row unverifiable report m = inl m
judge-deleted options r row delete report m = elim (Bool-cases (deletes options)) [
  | inl e ↦ elim (mem_of_mem_append row report.deleted (r ∷ []) (rw e at m)) [
    | inl a ↦ inl a
    | inr b ↦ inr (elim b [ inl p ↦ p | inr n ↦ absurd n ], e, refl)
  ]
  | inr e ↦ inl (rw e at m)
]

audit_row-deleted :
    (options : Options) (r row : Row) (seen : Seen) (report : Report)
    → r.seen ≡ seen
    → row ∈ (audit_row options r report).deleted
    → (row ∈ report.deleted) ⊎ ((row ≡ r) × IsBad options r)
unfolding audit_row
audit_row-deleted options r row no_album report p m = inl (rw (p, audit_row) at m)
audit_row-deleted options r row not_there report p m = inl (rw (p, audit_row) at m)
audit_row-deleted options r row (probed actual mb identity_ok) report p m =
    elim (judge-deleted options r row (verdict_of options r actual mb identity_ok) report
      (rw (p, audit_row) at m)) [
        | inl a ↦ inl a
        | inr (same, d, v) ↦ inr (same, (d, (actual, mb, identity_ok, p, v)))
      ]

audit_rows-deleted :
    (options : Options) (rows : List Row) (row : Row) (report : Report)
    → row ∈ (audit_rows options rows report).deleted
    → (row ∈ report.deleted) ⊎ ((row ∈ rows) × IsBad options row)
unfolding audit_rows
audit_rows-deleted options [] row report m = inl m
audit_rows-deleted options (r ∷ rows) row report m =
    elim (audit_rows-deleted options rows row (audit_row options r report) m) [
      | inr (n, bad) ↦ inr (inr n, bad)
      | inl a ↦ elim (audit_row-deleted options r row r.seen report refl a) [
        | inl b ↦ inl b
        | inr (p, bad) ↦ inr (inl p, subst (IsBad options) (sym p) bad)
      ]
    ]

-- Only rows of the run are deleted, only with `--apply` and without `--no-delete`, and only those
-- that were probed and whose verdict is "delete".
pub audit_rows-deletes :
    (options : Options) (rows : List Row) (row : Row)
    → row ∈ (audit_rows options rows no_report).deleted
    → (row ∈ rows) × IsBad options row
audit_rows-deletes options rows row m = elim (audit_rows-deleted options rows row no_report m) [
  | inl a ↦ absurd a
  | inr b ↦ b
]
