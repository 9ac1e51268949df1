-- ===== src/Voting/Best.antt =====
-- Python's `max(xs, key=...)`.
use mediahub_configs.Prelude.{
  ◌≡◌, refl, ◌∙◌, ◌⊎◌, inl, inr, Bool, true, false, List, [], ◌∷◌, All, ◌∈◌, if◌then◌else◌, arith,
}

-- Python's `max(xs, key=...)`, `lt` comparing the keys: the first of the maximal items.
module _ {A : Type 0} (lt : A → A → Bool) where
  unfoldable pub max_by : A → List A → A
  max_by best [] = best
  max_by best (x ∷ xs) = max_by (if lt best x then x else best) xs

  one_of_two :
      (r best x next : A) (xs : List A)
      → r ∈ next ∷ xs
      → (next ≡ best) ⊎ (next ≡ x)
      → r ∈ best ∷ x ∷ xs
  one_of_two r best x next xs (inl q) (inl p) = inl (q ∙ p)
  one_of_two r best x next xs (inl q) (inr p) = inr (inl (q ∙ p))
  one_of_two r best x next xs (inr m) p = inr (inr m)

  pub max_by-mem : (best : A) (xs : List A) → max_by best xs ∈ best ∷ xs
  unfolding max_by
  max_by-mem best [] = inl refl
  max_by-mem best (x ∷ xs) =
      let next = if lt best x then x else best in
      one_of_two (max_by next xs) best x next xs (max_by-mem next xs) (ground arith)

  module _ (trans : (a b c : A) → lt a b ≡ true → lt b c ≡ true → lt a c ≡ true)
      (irrefl : (a : A) → lt a a ≡ false) where
    -- What was best when `best` was taken is not above the result.
    max_by-le : (best z : A) (xs : List A) → lt best z ≡ false → lt (max_by best xs) z ≡ false
    unfolding max_by
    max_by-le best z [] h = h
    max_by-le best z (x ∷ xs) h =
        max_by-le (if lt best x then x else best) z xs (ground (arith, trans best x z))

    -- The result is not below any of the items.
    pub max_by-upper :
        (best : A) (xs : List A) → All (λ z. lt (max_by best xs) z ≡ false) (best ∷ xs)
    unfolding max_by
    max_by-upper best [] = (irrefl best, tt)
    max_by-upper best (x ∷ xs) =
        let next = if lt best x then x else best in
        (
          max_by-le next best xs (ground (arith, irrefl best, trans best x best)),
          (max_by-le next x xs (ground (arith, irrefl x)), (max_by-upper next xs).1),
        )
