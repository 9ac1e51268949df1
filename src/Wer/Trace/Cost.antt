-- ===== src/Wer/Trace/Cost.antt =====
-- The backtrace ends, and what it counts costs the edit distance.
use native.Mathlib.Numerals.{sub-one}
use mediahub_configs.Prelude.{
  ℕ, zero, suc, ◌+◌, ◌≤◌, ◌<◌, ◌≡◌, refl, sym, ap, ◌∙◌, Option, some, List, [], ◌∷◌, if◌then◌else◌,
  min, length, ◌==◌, get_elem?, get_elem?_of_lt, take, arith, Bool-cases, inl, inr,
}
use mediahub_configs.Prelude.Equality.{Eq, ◌=?◌}
use mediahub_configs.Wer.Table.{table, edit_distance}
use mediahub_configs.Wer.Table.Rows.{table-lev, take_all, edit_distance-lev}
use mediahub_configs.Wer.Levenshtein.{lev, lev_nil, reverse_onto, reversed}
use mediahub_configs.Wer.Trace.{
  Ops, no_ops, substituted, deleted, inserted, cell, same, trace, edit_ops,
}

abbrev pub total : Ops → ℕ
total o = o.substitutions + o.deletions + o.insertions

-- From `(i, j)` and the counts `ops` the loop ends with counts that are `d` more in all, and that
-- turn `i` items into `j`.
pub record IsTraced (r : Option Ops) (i j d : ℕ) (ops : Ops) : Type 0 where
  pub final : Ops
  pub ran : r ≡ some final
  pub cost : total final ≡ total ops + d
  pub balance : final.insertions + ops.deletions + i ≡ final.deletions + ops.insertions + j

module _ {A : Type 0} ⦃e : Eq A⦄ where
  take_next :
      (xs acc : List A) (i : ℕ) (x : A)
      → get_elem? xs i ≡ some x
      → reverse_onto (take (suc i) xs) acc ≡ x ∷ reverse_onto (take i xs) acc
  take_next [] acc i x h = cc
  take_next (a ∷ xs) acc zero x h = ap (λ b. b ∷ acc) (cc)
  take_next (a ∷ xs) acc (suc i) x h = take_next xs (a ∷ acc) i x h

  length-reversed_take :
      (xs acc : List A) (i : ℕ)
      → i ≤ length xs
      → length (reverse_onto (take i xs) acc) ≡ i + length acc
  length-reversed_take xs acc zero h = omega arith
  length-reversed_take [] acc (suc i) h = absurd (omega arith)
  length-reversed_take (x ∷ xs) acc (suc i) h =
      omega (arith, length-reversed_take xs (x ∷ acc) i (omega arith))

  module _ (ref hyp : List A) where
    -- The distance of the first `i` items from the first `j`.
    D : ℕ → ℕ → ℕ
    D i j = lev (reversed (take i ref)) (reversed (take j hyp))

    D-step :
        (i j : ℕ) (x y : A)
        → get_elem? ref i ≡ some x
        → get_elem? hyp j ≡ some y
        → D (suc i) (suc j)
          ≡ (if x =? y then D i j else suc (min (min (D i j) (D i (suc j))) (D (suc i) j)))
    unfolding D lev
    D-step i j x y p q = rw (take_next ref [] i x p, take_next hyp [] j y q)

    D-zero_left : (j : ℕ) → j ≤ length hyp → D 0 j ≡ j
    unfolding D lev
    D-zero_left j h = omega (arith, length-reversed_take hyp [] j h)

    D-zero_right : (i : ℕ) → i ≤ length ref → D i 0 ≡ i
    unfolding D
    D-zero_right i h =
        omega (arith, lev_nil (reversed (take i ref)), length-reversed_take ref [] i h)

    abbrev dp : List (List ℕ)
    dp = table ref hyp

    trace_both :
        (f i j : ℕ) (ops : Ops)
        → trace ref hyp dp (suc f) (suc i) (suc j) ops ≡ (
            if same (get_elem? ref i) (get_elem? hyp j)
            then trace ref hyp dp f i j ops
            else if cell dp (suc i) (suc j) == cell dp i j + 1
            then trace ref hyp dp f i j (substituted ops)
            else if cell dp (suc i) (suc j) == cell dp i (suc j) + 1
            then trace ref hyp dp f i (suc j) (deleted ops)
            else trace ref hyp dp f (suc i) j (inserted ops))
    unfolding trace
    trace_both f i j ops = simp sub-one (ground arith)

    trace_end : (f : ℕ) (ops : Ops) → trace ref hyp dp f 0 0 ops ≡ some ops
    unfolding trace
    trace_end zero ops = refl
    trace_end (suc f) ops = refl

    trace_left :
        (f j : ℕ) (ops : Ops)
        → trace ref hyp dp (suc f) 0 (suc j) ops ≡ trace ref hyp dp f 0 j (inserted ops)
    unfolding trace
    trace_left f j ops = simp sub-one (ground arith)

    trace_right :
        (f i : ℕ) (ops : Ops)
        → cell dp (suc i) 0 ≡ cell dp i 0 + 1
        → trace ref hyp dp (suc f) (suc i) 0 ops ≡ trace ref hyp dp f i 0 (deleted ops)
    unfolding trace
    trace_right f i ops h = simp sub-one (ground arith)

    cell-D : (i j : ℕ) → i ≤ length ref → j ≤ length hyp → cell dp i j ≡ D i j
    unfolding D
    cell-D i j = table-lev ref hyp i j

    abbrev Traces : ℕ → ℕ → ℕ → Ops → Type 0
    Traces f i j ops = IsTraced (trace ref hyp dp f i j ops) i j (D i j) ops

    trace_step :
        (f i j : ℕ) (ops : Ops) (x y : A)
        → i < length ref
        → j < length hyp
        → get_elem? ref i ≡ some x
        → get_elem? hyp j ≡ some y
        → Traces f i j ops
        → Traces f i j (substituted ops)
        → Traces f i (suc j) (deleted ops)
        → Traces f (suc i) j (inserted ops)
        → Traces (suc f) (suc i) (suc j) ops
    trace_step f i j ops x y hi hj p q kept changed dropped added =
        let unfolded = trace_both f i j ops in
        let dist = D-step i j x y p q in
        let here = cell-D (suc i) (suc j) (omega arith) (omega arith) in
        let diagonal = cell-D i j (omega arith) (omega arith) in
        let above = cell-D i (suc j) (omega arith) (omega arith) in
        elim (Bool-cases (x =? y)) [
          | inl t ↦ record {
            final = kept.final;
            ran = ground arith;
            cost = ground arith;
            balance = omega arith;
          }
          | inr t ↦ elim (Bool-cases (cell dp (suc i) (suc j) == cell dp i j + 1)) [
            | inl c ↦ record {
              final = changed.final;
              ran = ground arith;
              cost = ground arith;
              balance = omega arith;
            }
            | inr c ↦ elim (Bool-cases (cell dp (suc i) (suc j) == cell dp i (suc j) + 1)) [
              | inl d ↦ record {
                final = dropped.final;
                ran = ground arith;
                cost = ground arith;
                balance = omega arith;
              }
              | inr d ↦ record {
                final = added.final;
                ran = ground arith;
                cost = ground arith;
                balance = omega arith;
              }
            ]
          ]
        ]

    trace-Traces :
        (f i j : ℕ) (ops : Ops) → i ≤ length ref → j ≤ length hyp → i + j ≤ f → Traces f i j ops
    trace-Traces f zero zero ops hi hj h = record {
      final = ops;
      ran = trace_end f ops;
      cost = omega (arith, D-zero_left 0 hj);
      balance = omega arith;
    }
    trace-Traces zero (suc i) j ops hi hj h = absurd (omega arith)
    trace-Traces zero zero (suc j) ops hi hj h = absurd (omega arith)
    trace-Traces (suc f) zero (suc j) ops hi hj h =
        let t = trace-Traces f zero j (inserted ops) hi (omega arith) (omega arith) in
        record {
          final = t.final;
          ran = trace_left f j ops ∙ t.ran;
          cost = omega (arith, t.cost, D-zero_left j (omega arith), D-zero_left (suc j) hj);
          balance = omega (arith, t.balance);
        }
    trace-Traces (suc f) (suc i) zero ops hi hj h =
        let t = trace-Traces f i zero (deleted ops) (omega arith) hj (omega arith) in
        let more = D-zero_right (suc i) hi in
        let less = D-zero_right i (omega arith) in
        record {
          final = t.final;
          ran =
              trace_right f i ops
                (omega (arith, cell-D (suc i) 0 hi hj, cell-D i 0 (omega arith) hj, more, less))
              ∙ t.ran;
          cost = omega (arith, t.cost, more, less);
          balance = omega (arith, t.balance);
        }
    trace-Traces (suc f) (suc i) (suc j) ops hi hj h =
        let (x, p) = get_elem?_of_lt ref i (omega arith) in
        let (y, q) = get_elem?_of_lt hyp j (omega arith) in
        trace_step f i j ops x y (omega arith) (omega arith) p q
          (trace-Traces f i j ops (omega arith) (omega arith) (omega arith))
          (trace-Traces f i j (substituted ops) (omega arith) (omega arith) (omega arith))
          (trace-Traces f i (suc j) (deleted ops) (omega arith) (omega arith) (omega arith))
          (trace-Traces f (suc i) j (inserted ops) (omega arith) (omega arith) (omega arith))

    D_all : D (length ref) (length hyp) ≡ edit_distance ref hyp
    unfolding D
    D_all = rw (take_all ref, take_all hyp) (sym (edit_distance-lev ref hyp))

  -- The fuel suffices: the loop of `_edit_ops` ends. Its three counts add up to what
  -- `_edit_distance` returns, and deleting and inserting so many items turns the one length into
  -- the other.
  pub edit_ops-cost :
      (ref hyp : List A)
      → (ops : Ops) × (edit_ops ref hyp ≡ some ops)
        × (total ops ≡ edit_distance ref hyp)
        × (length ref + ops.insertions ≡ length hyp + ops.deletions)
  unfolding edit_ops
  edit_ops-cost ref hyp =
      let t =
        trace-Traces ref hyp (length ref + length hyp) (length ref) (length hyp) no_ops
          (omega arith) (omega arith) (omega arith) in
      (t.final, t.ran, omega (arith, t.cost, D_all ref hyp), omega (arith, t.balance))
