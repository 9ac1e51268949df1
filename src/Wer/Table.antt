-- ===== src/Wer/Table.antt =====
-- The dynamic programming tables of `_edit_ops` and `_edit_distance`. Both fill a row, from left to
-- right, from the row above it.
pub mod Rows
use mediahub_configs.Prelude.{
  ℕ, zero, suc, ◌+◌, List, [], ◌∷◌, if◌then◌else◌, min, length, ltb, get_or,
}
use mediahub_configs.Prelude.Equality.{Eq, ◌=?◌}

-- list(range(k, k + n))
pub count_from : ℕ → ℕ → List ℕ
count_from k zero = []
count_from k (suc n) = k ∷ count_from (k + 1) n

module _ {A : Type 0} ⦃e : Eq A⦄ where
  -- The cells 1 to m of a row, `left` being the cell in front of them; the row above begins with
  -- the cell `diagonal`. (That row has a cell more than there are items, so it does not run out.)
  pub row_cells : A → List A → List ℕ → ℕ → List ℕ
  row_cells x [] above left = []
  row_cells x (y ∷ ys) [] left = []
  row_cells x (y ∷ ys) (diagonal ∷ []) left = []
  row_cells x (y ∷ ys) (diagonal ∷ up ∷ above) left =
      let cell = if x =? y then diagonal else suc (min (min diagonal up) left) in
      cell ∷ row_cells x ys (up ∷ above) cell

  -- Row `i`, for the item `x` of the reference.
  pub next_row : ℕ → A → List A → List ℕ → List ℕ
  unfolding row_cells
  next_row i x hyp above = i ∷ row_cells x hyp above i

  -- The rows from row `i` on, which is given.
  pub table_from : ℕ → List ℕ → List A → List A → List (List ℕ)
  unfolding next_row
  table_from i row [] hyp = row ∷ []
  table_from i row (x ∷ ref) hyp = row ∷ table_from (i + 1) (next_row (i + 1) x hyp row) ref hyp

  -- `dp` of `_edit_ops`.
  unfoldable pub table : List A → List A → List (List ℕ)
  unfolding table_from count_from
  table ref hyp = table_from 0 (count_from 0 (suc (length hyp))) ref hyp

  -- The loop of `_edit_distance`, which keeps one row.
  pub last_row : ℕ → List ℕ → List A → List A → List ℕ
  unfolding next_row
  last_row i row [] hyp = row
  last_row i row (x ∷ ref) hyp = last_row (i + 1) (next_row (i + 1) x hyp row) ref hyp

  pub distance_by_rows : List A → List A → ℕ
  unfolding last_row count_from
  distance_by_rows ref hyp =
      get_or (last_row 0 (count_from 0 (suc (length hyp))) ref hyp) (length hyp) 0

  -- The shorter sequence gives the width of the row.
  unfoldable pub edit_distance : List A → List A → ℕ
  unfolding distance_by_rows
  edit_distance ref hyp =
      if ltb (length ref) (length hyp) then distance_by_rows hyp ref else distance_by_rows ref hyp
