-- ===== src/Wer/Optimal.antt =====
-- `_edit_distance` against the scripts that turn the reference into the hypothesis.
use mediahub_configs.Prelude.{ℕ, ◌≤◌, ◌≡◌, ◌↔◌, refl, sym, ap₂, subst, List, [], ◌∷◌, length, arith}
use mediahub_configs.Prelude.Equality.{Eq}
use mediahub_configs.Wer.Table.{edit_distance}
use mediahub_configs.Wer.Table.Rows.{edit_distance-lev}
use mediahub_configs.Wer.Levenshtein.{
  Script, done, keep, replace, delete, insert, Script-reversed, Script_of_reversed, lev-le,
  lev_attained, reversed,
}

module _ {A : Type 0} ⦃e : Eq A⦄ where
  -- Some script of insertions, deletions and substitutions costs what `_edit_distance` returns.
  pub edit_distance_attained : (ref hyp : List A) → Script ref hyp (edit_distance ref hyp)
  edit_distance_attained ref hyp = Script_of_reversed ref hyp (
      subst (λ k. Script (reversed ref) (reversed hyp) k) (sym (edit_distance-lev ref hyp))
        (lev_attained (reversed ref) (reversed hyp)))

  -- No script costs less than `_edit_distance` returns.
  pub edit_distance-le : (ref hyp : List A) (k : ℕ) → Script ref hyp k → edit_distance ref hyp ≤ k
  edit_distance-le ref hyp k s = rw edit_distance-lev (lev-le (Script-reversed ref hyp s))

  Script_free : {xs ys : List A} {k : ℕ} → Script xs ys k → k ≡ 0 → xs ≡ ys
  Script_free done p = refl
  Script_free (keep x y q s) p = ap₂ ◌∷◌ q (Script_free s p)
  Script_free (replace x y s) p = absurd (omega arith)
  Script_free (delete x s) p = absurd (omega arith)
  Script_free (insert y s) p = absurd (omega arith)

  Script_same : (xs : List A) → Script xs xs 0
  Script_same [] = done
  Script_same (x ∷ xs) = keep x x refl (Script_same xs)

  -- The distance is 0 exactly between equal sequences.
  pub edit_distance-zero_iff : (ref hyp : List A) → (edit_distance ref hyp ≡ 0) ↔ (ref ≡ hyp)
  edit_distance-zero_iff ref hyp = (
    λ p. Script_free (edit_distance_attained ref hyp) p,
    λ p.
        omega (arith, edit_distance-le ref hyp 0 (subst (λ l. Script ref l 0) p (Script_same ref))),
  )

  inserts : (ys : List A) → Script [] ys (length ys)
  inserts [] = done
  inserts (y ∷ ys) = insert y (inserts ys)

  Script_nil : {ys : List A} {k : ℕ} → Script [] ys k → length ys ≤ k
  Script_nil done = omega arith
  Script_nil (insert y s) = omega (arith, Script_nil s)

  pub edit_distance_nil : (hyp : List A) → edit_distance [] hyp ≡ length hyp
  edit_distance_nil hyp = omega (
    arith,
    edit_distance-le [] hyp (length hyp) (inserts hyp),
    Script_nil (edit_distance_attained [] hyp),
  )
