-- ===== src/Prelude/Sort.antt =====
-- Python's `sort(key=...)` with a numeric key is stable. Here it is an insertion sort: an element
-- goes in front of the first one whose key is not smaller, and the list is read from its end.
use mathlib.Core.List.Perm
use mathlib.Core.List.{Perm}
use mediahub_configs.Prelude.Tests.{leb, if◌then◌else◌, Bool-cases}
use mediahub_configs.Prelude.Lists.{All, All-map, ◌∈◌}
use Prim.Native.Nat.{ℕ, ◌≤◌}
use mathlib.Core.Logic.{inl, inr}
use mathlib.Core.List.{List, [], ◌∷◌}
use native.Mathlib.Omega.{arith}

module _ {A : Type 0} (key : A → ℕ) where
  pub insert_by : A → List A → List A
  insert_by x [] = x ∷ []
  insert_by x (y ∷ ys) = if leb (key x) (key y) then x ∷ y ∷ ys else y ∷ insert_by x ys

  unfoldable pub sort_by : List A → List A
  unfolding insert_by
  sort_by [] = []
  sort_by (x ∷ xs) = insert_by x (sort_by xs)

  -- Every element's key is at most that of each later one.
  abbrev pub IsSortedBy : List A → Type 0
  IsSortedBy [] = Unit
  IsSortedBy (x ∷ xs) = All (λ y. key x ≤ key y) xs × IsSortedBy xs

  insert_by-All : (P : A → Type 0) (x : A) (xs : List A) → P x → All P xs → All P (insert_by x xs)
  unfolding insert_by
  insert_by-All P x [] h hs = (h, tt)
  insert_by-All P x (y ∷ ys) h hs = elim (Bool-cases (leb (key x) (key y))) [
    | inl e ↦ rw e (h, hs)
    | inr e ↦ rw e (hs.0, insert_by-All P x ys h hs.1)
  ]

  insert_by-IsSortedBy : (x : A) (xs : List A) → IsSortedBy xs → IsSortedBy (insert_by x xs)
  unfolding insert_by
  insert_by-IsSortedBy x [] h = (tt, tt)
  insert_by-IsSortedBy x (y ∷ ys) h = elim (Bool-cases (leb (key x) (key y))) [
    | inl e ↦ rw e (
      (
        ground arith,
        All-map (λ z. key y ≤ key z) (λ z. key x ≤ key z) (λ z p. ground arith) ys h.0,
      ),
      h,
    )
    | inr e ↦
        rw e (
          insert_by-All (λ z. key y ≤ key z) x ys (ground arith) h.0,
          insert_by-IsSortedBy x ys h.1,
        )
  ]

  pub sort_by-IsSortedBy : (xs : List A) → IsSortedBy (sort_by xs)
  unfolding sort_by
  sort_by-IsSortedBy [] = tt
  sort_by-IsSortedBy (x ∷ xs) = insert_by-IsSortedBy x (sort_by xs) (sort_by-IsSortedBy xs)

  insert_by-perm : (x : A) (xs : List A) → Perm (insert_by x xs) (x ∷ xs)
  unfolding insert_by
  insert_by-perm x [] = Perm.refl _
  insert_by-perm x (y ∷ ys) = elim (Bool-cases (leb (key x) (key y))) [
    | inl e ↦ rw e (Perm.refl _)
    | inr e ↦ rw e (Perm.trans (Perm.cons y (insert_by-perm x ys)) (Perm.swap x y ys))
  ]

  pub sort_by-perm : (xs : List A) → Perm (sort_by xs) xs
  unfolding sort_by
  sort_by-perm [] = Perm.refl []
  sort_by-perm (x ∷ xs) = Perm.trans (insert_by-perm x (sort_by xs)) (Perm.cons x (sort_by-perm xs))

  insert_by-mem : (z x : A) (xs : List A) → z ∈ insert_by x xs → z ∈ x ∷ xs
  unfolding insert_by
  insert_by-mem z x [] m = m
  insert_by-mem z x (y ∷ ys) m = elim (Bool-cases (leb (key x) (key y))) [
    | inl e ↦ rw e at m
    | inr e ↦ elim (rw e at m) [
      | inl q ↦ inr (inl q)
      | inr r ↦ elim (insert_by-mem z x ys r) [ inl q ↦ inl q | inr s ↦ inr (inr s) ]
    ]
  ]

  -- Sorting adds no element.
  pub mem-sort_by : (z : A) (xs : List A) → z ∈ sort_by xs → z ∈ xs
  unfolding sort_by
  mem-sort_by z [] m = m
  mem-sort_by z (x ∷ xs) m = elim (insert_by-mem z x (sort_by xs) m) [
    | inl q ↦ inl q
    | inr r ↦ inr (mem-sort_by z xs r)
  ]
