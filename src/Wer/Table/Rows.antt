-- ===== src/Wer/Table/Rows.antt =====
-- The rolling row and the whole table hold the distance, and so `_edit_distance` returns it.
use mediahub_configs.Prelude.{
  ℕ, zero, suc, ◌+◌, ◌≤◌, ◌≡◌, refl, ap, ap₂, ◌∙◌, List, [], ◌∷◌, if◌then◌else◌, min, length,
  get_or, take, arith,
}
use mediahub_configs.Prelude.Equality.{Eq, ◌=?◌}
use mediahub_configs.Wer.Table.{
  count_from, row_cells, next_row, table_from, table, last_row, distance_by_rows, edit_distance,
}
use mediahub_configs.Wer.Levenshtein.{lev, lev_comm, lev_nil, reverse_onto, reversed}

module _ {A : Type 0} ⦃e : Eq A⦄ where
  -- The distances of `xs` from `acc` with one and more items of `ys` put in front, in turn.
  abbrev lev_tail : List A → List A → List A → List ℕ
  lev_tail xs acc [] = []
  lev_tail xs acc (y ∷ ys) = lev xs (y ∷ acc) ∷ lev_tail xs (y ∷ acc) ys

  abbrev pub lev_row : List A → List A → List ℕ
  lev_row xs hyp = lev xs [] ∷ lev_tail xs [] hyp

  lev_step :
      (x : A) (xs acc : List A) (y : A)
      → (if x =? y
          then lev xs acc
          else suc (min (min (lev xs acc) (lev xs (y ∷ acc))) (lev (x ∷ xs) acc)))
        ≡ lev (x ∷ xs) (y ∷ acc)
  unfolding lev
  lev_step x xs acc y = refl

  row_cells-lev :
      (x : A) (xs acc ys : List A)
      → row_cells x ys (lev xs acc ∷ lev_tail xs acc ys) (lev (x ∷ xs) acc)
        ≡ lev_tail (x ∷ xs) acc ys
  unfolding row_cells
  row_cells-lev x xs acc [] = refl
  row_cells-lev x xs acc (y ∷ ys) =
      rw (lev_step x xs acc y)
        (ap (λ l. lev (x ∷ xs) (y ∷ acc) ∷ l) (row_cells-lev x xs (y ∷ acc) ys))

  count_from-lev :
      (acc ys : List A) (k : ℕ)
      → k ≡ suc (length acc)
      → count_from k (length ys) ≡ lev_tail [] acc ys
  unfolding count_from lev
  count_from-lev acc [] k p = refl
  count_from-lev acc (y ∷ ys) k p = ap₂ ◌∷◌ p (count_from-lev (y ∷ acc) ys (k + 1) (omega arith))

  first_row : (hyp : List A) → count_from 0 (suc (length hyp)) ≡ lev_row [] hyp
  unfolding count_from lev
  first_row hyp = ap (λ l. 0 ∷ l) (count_from-lev [] hyp (0 + 1) (omega arith))

  next_row-lev :
      (i : ℕ) (x : A) (xs hyp : List A)
      → i ≡ length xs
      → next_row (i + 1) x hyp (lev_row xs hyp) ≡ lev_row (x ∷ xs) hyp
  unfolding next_row
  next_row-lev i x xs hyp p =
      let left : i + 1 ≡ lev (x ∷ xs) [] = omega (arith, lev_nil (x ∷ xs)) in
      rw left (ap (λ l. lev (x ∷ xs) [] ∷ l) (row_cells-lev x xs [] hyp))

  last_row-lev :
      (i : ℕ) (xs ref hyp : List A)
      → i ≡ length xs
      → last_row i (lev_row xs hyp) ref hyp ≡ lev_row (reverse_onto ref xs) hyp
  unfolding last_row
  last_row-lev i xs [] hyp p = refl
  last_row-lev i xs (x ∷ ref) hyp p =
      rw (next_row-lev i x xs hyp p) (last_row-lev (i + 1) (x ∷ xs) ref hyp (omega arith))

  get_or-lev_tail :
      (xs acc ys : List A) (j : ℕ)
      → j ≤ length ys
      → get_or (lev xs acc ∷ lev_tail xs acc ys) j 0 ≡ lev xs (reverse_onto (take j ys) acc)
  get_or-lev_tail xs acc ys zero h = refl
  get_or-lev_tail xs acc [] (suc j) h = absurd (omega arith)
  get_or-lev_tail xs acc (y ∷ ys) (suc j) h = get_or-lev_tail xs (y ∷ acc) ys j (omega arith)

  pub take_all : (ys : List A) → take (length ys) ys ≡ ys
  take_all [] = refl
  take_all (y ∷ ys) = ap (λ l. y ∷ l) (take_all ys)

  distance_by_rows-lev :
      (ref hyp : List A) → distance_by_rows ref hyp ≡ lev (reversed ref) (reversed hyp)
  unfolding distance_by_rows
  distance_by_rows-lev ref hyp =
      rw (first_row hyp, last_row-lev 0 [] ref hyp refl)
        (get_or-lev_tail (reversed ref) [] hyp (length hyp) (omega arith) ∙ rw (take_all hyp))

  -- `_edit_distance`, whichever argument is the shorter, is the distance of the reversed lists.
  pub edit_distance-lev :
      (ref hyp : List A) → edit_distance ref hyp ≡ lev (reversed ref) (reversed hyp)
  unfolding edit_distance
  edit_distance-lev ref hyp = ground (
    arith,
    distance_by_rows-lev ref hyp,
    distance_by_rows-lev hyp ref,
    lev_comm (reversed ref) (reversed hyp),
  )

  get_or-table_from :
      (i : ℕ) (xs ref hyp : List A) (k : ℕ)
      → i ≡ length xs
      → k ≤ length ref
      → get_or (table_from i (lev_row xs hyp) ref hyp) k []
        ≡ lev_row (reverse_onto (take k ref) xs) hyp
  unfolding table_from
  get_or-table_from i xs [] hyp zero p h = refl
  get_or-table_from i xs (x ∷ ref) hyp zero p h = refl
  get_or-table_from i xs [] hyp (suc k) p h = absurd (omega arith)
  get_or-table_from i xs (x ∷ ref) hyp (suc k) p h =
      rw (next_row-lev i x xs hyp p)
        (get_or-table_from (i + 1) (x ∷ xs) ref hyp k (omega arith) (omega arith))

  -- `dp[i][j]` is the distance of the first `i` items from the first `j`.
  pub table-lev :
      (ref hyp : List A) (i j : ℕ)
      → i ≤ length ref
      → j ≤ length hyp
      → get_or (get_or (table ref hyp) i []) j 0
        ≡ lev (reversed (take i ref)) (reversed (take j hyp))
  unfolding table
  table-lev ref hyp i j hi hj =
      rw (first_row hyp, get_or-table_from 0 [] ref hyp i refl hi)
        (get_or-lev_tail (reversed (take i ref)) [] hyp j hj)
