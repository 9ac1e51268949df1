-- ===== src/Wer/Trace.antt =====
-- The backtrace of `_edit_ops`.
pub mod Cost
use mediahub_configs.Prelude.{
  ℕ, zero, suc, ◌+◌, ◌-◌, Bool, true, false, ◌&&◌, Option, none, some, List, [], ◌∷◌, if◌then◌else◌,
  length, ltb, ◌==◌, get_or, get_elem?,
}
use mediahub_configs.Prelude.Equality.{Eq, ◌=?◌}
use mediahub_configs.Wer.Table.{table}

pub record Ops : Type 0 where
  pub substitutions : ℕ
  pub deletions : ℕ
  pub insertions : ℕ

abbrev pub no_ops : Ops
no_ops = record { substitutions = 0; deletions = 0; insertions = 0 }

abbrev pub substituted : Ops → Ops
substituted o = record o { substitutions = o.substitutions + 1 }

abbrev pub deleted : Ops → Ops
deleted o = record o { deletions = o.deletions + 1 }

abbrev pub inserted : Ops → Ops
inserted o = record o { insertions = o.insertions + 1 }

abbrev pub cell : List (List ℕ) → ℕ → ℕ → ℕ
cell dp i j = get_or (get_or dp i []) j 0

module _ {A : Type 0} ⦃e : Eq A⦄ where
  abbrev pub same : Option A → Option A → Bool
  same none y = false
  same (some x) none = false
  same (some x) (some y) = x =? y

  -- The loop, on fuel; `none` means that the fuel ran out. Each round takes one from `i` or `j`.
  pub trace : List A → List A → List (List ℕ) → ℕ → ℕ → ℕ → Ops → Option Ops
  trace ref hyp dp zero i j ops = if i == 0 && j == 0 then some ops else none
  trace ref hyp dp (suc fuel) i j ops =
      let kept = trace ref hyp dp fuel (i - 1) (j - 1) ops in
      let changed = trace ref hyp dp fuel (i - 1) (j - 1) (substituted ops) in
      let dropped = trace ref hyp dp fuel (i - 1) j (deleted ops) in
      let added = trace ref hyp dp fuel i (j - 1) (inserted ops) in
      if i == 0 && j == 0
      then some ops
      else if (ltb 0 i && ltb 0 j) && same (get_elem? ref (i - 1)) (get_elem? hyp (j - 1))
      then kept
      else if (ltb 0 i && ltb 0 j) && (cell dp i j == cell dp (i - 1) (j - 1) + 1)
      then changed
      else if ltb 0 i && (cell dp i j == cell dp (i - 1) j + 1)
      then dropped
      else added

  unfoldable pub edit_ops : List A → List A → Option Ops
  unfolding trace table
  edit_ops ref hyp =
      trace ref hyp (table ref hyp) (length ref + length hyp) (length ref) (length hyp) no_ops
