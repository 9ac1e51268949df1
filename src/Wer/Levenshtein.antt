-- ===== src/Wer/Levenshtein.antt =====
-- What an edit distance is: the least cost of a script, and a recursion that computes it.
use mediahub_configs.Prelude.{
  ℕ, suc, ◌+◌, ◌≤◌, ◌≡◌, refl, ◌∙◌, subst, List, [], ◌∷◌, ◌++◌, if◌then◌else◌, min, length, arith,
  Bool-cases, inl, inr,
}
use mathlib.Core.List.{append-nil}
use mathlib.Core.Path.{subst₂}
use native.Mathlib.Decide.{dec_le}
use mediahub_configs.Prelude.Equality.{Eq, ◌=?◌}

module _ {A : Type 0} where
  -- A script turns the first sequence into the second; each change costs 1.
  pub data Script : List A → List A → ℕ → Type 0 where
    done : Script [] [] 0
    keep : {xs ys : List A} {k : ℕ} (x y : A) → x ≡ y → Script xs ys k → Script (x ∷ xs) (y ∷ ys) k
    replace : {xs ys : List A} {k : ℕ} (x y : A) → Script xs ys k → Script (x ∷ xs) (y ∷ ys) (suc k)
    delete : {xs ys : List A} {k : ℕ} (x : A) → Script xs ys k → Script (x ∷ xs) ys (suc k)
    insert : {xs ys : List A} {k : ℕ} (y : A) → Script xs ys k → Script xs (y ∷ ys) (suc k)

  abbrev pub reverse_onto : List A → List A → List A
  reverse_onto [] acc = acc
  reverse_onto (x ∷ xs) acc = reverse_onto xs (x ∷ acc)

  abbrev pub reversed : List A → List A
  reversed xs = reverse_onto xs []

  reverse_onto-reverse_onto :
      (xs acc bs : List A) → reverse_onto (reverse_onto xs acc) bs ≡ reverse_onto acc (xs ++ bs)
  reverse_onto-reverse_onto [] acc bs = refl
  reverse_onto-reverse_onto (x ∷ xs) acc bs = reverse_onto-reverse_onto xs (x ∷ acc) bs

  reversed-reversed : (xs : List A) → reversed (reversed xs) ≡ xs
  reversed-reversed xs = reverse_onto-reverse_onto xs [] [] ∙ append-nil xs

  Script-cost : {xs ys : List A} {k n : ℕ} → Script xs ys k → k ≡ n → Script xs ys n
  Script-cost {xs} {ys} s p = subst (λ n. Script xs ys n) p s

  pub cheaper :
      {xs ys : List A} {j k : ℕ}
      → Script xs ys (suc j)
      → Script xs ys (suc k)
      → Script xs ys (suc (min j k))
  cheaper {j} {k} s t = elim (dec_le j k) [
    | yes h ↦ Script-cost s (omega arith)
    | no h ↦ Script-cost t (omega arith)
  ]

  -- A script for the ends, then one for the beginnings, last item first.
  Script-reverse_onto :
      {xs ys vs ws : List A} {k l : ℕ}
      → Script xs ys k
      → Script vs ws l
      → Script (reverse_onto xs vs) (reverse_onto ys ws) (k + l)
  Script-reverse_onto done q = Script-cost q (omega arith)
  Script-reverse_onto (keep x y p s) q = Script-reverse_onto s (keep x y p q)
  Script-reverse_onto (replace x y s) q =
      Script-cost (Script-reverse_onto s (replace x y q)) (omega arith)
  Script-reverse_onto (delete x s) q =
      Script-cost (Script-reverse_onto s (delete x q)) (omega arith)
  Script-reverse_onto (insert y s) q =
      Script-cost (Script-reverse_onto s (insert y q)) (omega arith)

  -- A script can be read from the end.
  pub Script-reversed :
      (xs ys : List A) {k : ℕ} → Script xs ys k → Script (reversed xs) (reversed ys) k
  Script-reversed xs ys s = Script-cost (Script-reverse_onto s done) (omega arith)

  pub Script_of_reversed :
      (xs ys : List A) {k : ℕ} → Script (reversed xs) (reversed ys) k → Script xs ys k
  Script_of_reversed xs ys {k} s =
      subst₂ (λ a b. Script a b k) (reversed-reversed xs) (reversed-reversed ys)
        (Script-reversed (reversed xs) (reversed ys) s)

module _ {A : Type 0} ⦃e : Eq A⦄ where
  unfoldable pub lev : List A → List A → ℕ
  lev [] ys = length ys
  lev (x ∷ xs) [] = suc (length xs)
  lev (x ∷ xs) (y ∷ ys) =
      if x =? y then lev xs ys else suc (min (min (lev xs ys) (lev xs (y ∷ ys))) (lev (x ∷ xs) ys))

  beq_comm : (x y : A) → (x =? y) ≡ (y =? x)
  beq_comm x y = ground (arith, e.beq_iff x y, e.beq_iff y x)

  pub lev_comm : (xs ys : List A) → lev xs ys ≡ lev ys xs
  unfolding lev
  lev_comm [] [] = refl
  lev_comm [] (y ∷ ys) = refl
  lev_comm (x ∷ xs) [] = refl
  lev_comm (x ∷ xs) (y ∷ ys) =
      ground (arith, beq_comm x y, lev_comm xs ys, lev_comm xs (y ∷ ys), lev_comm (x ∷ xs) ys)

  pub lev_nil : (xs : List A) → lev xs [] ≡ length xs
  unfolding lev
  lev_nil [] = refl
  lev_nil (x ∷ xs) = refl

  -- One item more or less changes the distance by one at most.
  pub record IsNear (xs ys : List A) : Type 0 where
    pub left : (x : A) → (lev (x ∷ xs) ys ≤ suc (lev xs ys)) × (lev xs ys ≤ suc (lev (x ∷ xs) ys))
    pub right : (y : A) → (lev xs (y ∷ ys) ≤ suc (lev xs ys)) × (lev xs ys ≤ suc (lev xs (y ∷ ys)))

  pub near : (xs ys : List A) → IsNear xs ys
  unfolding lev
  near [] [] = record { left = λ x. omega arith; right = λ y. omega arith }
  near [] (b ∷ ys) = record {
    left = λ x. ground (arith, (near [] ys).left x);
    right = λ y. omega arith;
  }
  near (a ∷ xs) [] = record {
    left = λ x. omega arith;
    right = λ y. ground (arith, (near xs []).right y, lev_nil xs);
  }
  near (a ∷ xs) (b ∷ ys) = record {
    left = λ x. ground (arith, (near (a ∷ xs) ys).left x, (near (a ∷ xs) ys).right b);
    right = λ y. ground (arith, (near xs (b ∷ ys)).right y, (near xs (b ∷ ys)).left a);
  }

  -- No script costs less.
  pub lev-le : {xs ys : List A} {k : ℕ} → Script xs ys k → lev xs ys ≤ k
  unfolding lev
  lev-le done = omega arith
  lev-le (keep {xs} {ys} x y p s) = let q = (e.beq_iff x y).1 p in rw q (lev-le s)
  lev-le (replace {xs} {ys} x y s) = ground (arith, lev-le s)
  lev-le (delete {xs} {ys} x s) = omega (arith, lev-le s, (near xs ys).left x)
  lev-le (insert {xs} {ys} y s) = omega (arith, lev-le s, (near xs ys).right y)

  -- Some script costs that much.
  pub lev_attained : (xs ys : List A) → Script xs ys (lev xs ys)
  unfolding lev
  lev_attained [] [] = done
  lev_attained [] (y ∷ ys) = insert y (lev_attained [] ys)
  lev_attained (x ∷ xs) [] = delete x (Script-cost (lev_attained xs []) (lev_nil xs))
  lev_attained (x ∷ xs) (y ∷ ys) = elim (Bool-cases (x =? y)) [
    | inl q ↦ rw q (keep x y ((e.beq_iff x y).0 q) (lev_attained xs ys))
    | inr q ↦ rw q (
        cheaper (cheaper (replace x y (lev_attained xs ys)) (delete x (lev_attained xs (y ∷ ys))))
          (insert y (lev_attained (x ∷ xs) ys)))
  ]
