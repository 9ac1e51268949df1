-- ===== src/Prelude/Lists.antt =====
-- Lists measured and indexed by native numbers, under the library's names, and predicates on lists
-- by recursion.
use Prim.Native.Nat.{ℕ, zero, suc, ◌+◌, ◌<◌}
use mathlib.Core.Path.{◌≡◌, refl, ap}
use mathlib.Core.Logic.{◌≢◌, ◌⊎◌, inl, inr}
use mathlib.Core.Bool.{Bool, true, false, ◌||◌}
use mathlib.Core.List.{List, [], ◌∷◌, ◌++◌}
use mathlib.Core.Option.{Option, none, some}
use mediahub_configs.Prelude.Tests.{Bool-cases}
use native.Mathlib.Omega.{arith}

module _ {ℓ} {A : Type ℓ} where
  abbrev pub length : List A → ℕ
  length [] = 0
  length (x ∷ xs) = suc (length xs)

  abbrev pub get_elem? : List A → ℕ → Option A
  get_elem? [] i = none
  get_elem? (x ∷ xs) zero = some x
  get_elem? (x ∷ xs) (suc i) = get_elem? xs i

  abbrev pub get_or : List A → ℕ → A → A
  get_or [] i d = d
  get_or (x ∷ xs) zero d = x
  get_or (x ∷ xs) (suc i) d = get_or xs i d

  -- A write out of bounds changes nothing.
  abbrev pub set : List A → ℕ → A → List A
  set [] i v = []
  set (x ∷ xs) zero v = v ∷ xs
  set (x ∷ xs) (suc i) v = x ∷ set xs i v

  -- xs[:n] and xs[n:]
  abbrev pub take : ℕ → List A → List A
  take zero xs = []
  take (suc n) [] = []
  take (suc n) (x ∷ xs) = x ∷ take n xs

  abbrev pub drop : ℕ → List A → List A
  drop zero xs = xs
  drop (suc n) [] = []
  drop (suc n) (x ∷ xs) = drop n xs

  abbrev pub concat : List (List A) → List A
  concat [] = []
  concat (xs ∷ xss) = xs ++ concat xss

  -- [x for x in xs if p(x)]
  abbrev pub keep_if : (A → Bool) → List A → List A
  keep_if p [] = []
  keep_if p (x ∷ xs) = elim (p x) [ true ↦ x ∷ keep_if p xs | false ↦ keep_if p xs ]

  abbrev pub any : (A → Bool) → List A → Bool
  any p [] = false
  any p (x ∷ xs) = p x || any p xs

  abbrev pub last? : List A → Option A
  last? [] = none
  last? (x ∷ []) = some x
  last? (x ∷ y ∷ ys) = last? (y ∷ ys)

  abbrev pub All {κ} : (A → Type κ) → List A → Type κ
  All P [] = Unit
  All P (x ∷ xs) = P x × All P xs

-- `⊥` is at level 0, and so is what stands beside it.
module _ {A : Type 0} where
  infix 4 ◌∈◌
  abbrev pub ◌∈◌ : A → List A → Type 0
  x ∈ [] = ⊥
  x ∈ (y ∷ ys) = (x ≡ y) ⊎ (x ∈ ys)

module _ {ℓ} {A : Type ℓ} where
  pub length-append : (xs ys : List A) → length (xs ++ ys) ≡ length xs + length ys
  length-append [] ys = omega arith
  length-append (x ∷ xs) ys = omega (arith, length-append xs ys)

  pub get_elem?_of_lt : (xs : List A) (i : ℕ) → i < length xs → (x : A) × (get_elem? xs i ≡ some x)
  get_elem?_of_lt [] i h = elim h [ ]
  get_elem?_of_lt (x ∷ xs) zero h = (x, refl)
  get_elem?_of_lt (x ∷ xs) (suc i) h = get_elem?_of_lt xs i (omega arith)

  pub length-set : (xs : List A) (i : ℕ) (v : A) → length (set xs i v) ≡ length xs
  length-set [] i v = refl
  length-set (x ∷ xs) zero v = refl
  length-set (x ∷ xs) (suc i) v = omega (arith, length-set xs i v)

  pub get_elem?-set :
      (xs : List A) (i : ℕ) (v : A) → i < length xs → get_elem? (set xs i v) i ≡ some v
  get_elem?-set [] i v h = absurd (omega arith)
  get_elem?-set (x ∷ xs) zero v h = refl
  get_elem?-set (x ∷ xs) (suc i) v h = get_elem?-set xs i v (omega arith)

  pub get_elem?-set_ne :
      (xs : List A) (i j : ℕ) (v : A) → i ≢ j → get_elem? (set xs i v) j ≡ get_elem? xs j
  get_elem?-set_ne [] i j v h = refl
  get_elem?-set_ne (x ∷ xs) zero zero v h = absurd (h refl)
  get_elem?-set_ne (x ∷ xs) zero (suc j) v h = refl
  get_elem?-set_ne (x ∷ xs) (suc i) zero v h = refl
  get_elem?-set_ne (x ∷ xs) (suc i) (suc j) v h = get_elem?-set_ne xs i j v (λ e. h (omega arith))

  pub take-append-drop : (n : ℕ) (xs : List A) → take n xs ++ drop n xs ≡ xs
  take-append-drop zero xs = refl
  take-append-drop (suc n) [] = refl
  take-append-drop (suc n) (x ∷ xs) = ap (λ l. x ∷ l) (take-append-drop n xs)

  module _ {κ} (P : A → Type κ) where
    pub All-append : (xs ys : List A) → All P xs → All P ys → All P (xs ++ ys)
    All-append [] ys hx hy = hy
    All-append (x ∷ xs) ys hx hy = (hx.0, All-append xs ys hx.1 hy)

    pub All-map {μ} : (Q : A → Type μ) → ((x : A) → P x → Q x) → (xs : List A) → All P xs → All Q xs
    All-map Q f [] h = tt
    All-map Q f (x ∷ xs) h = (f x h.0, All-map Q f xs h.1)

module _ {A : Type 0} where
  pub All-zip :
      (P Q R : A → Type 0) (f : (x : A) → P x → Q x → R x) (xs : List A)
      → All P xs
      → All Q xs
      → All R xs
  All-zip P Q R f [] p q = tt
  All-zip P Q R f (x ∷ xs) p q = (f x p.0 q.0, All-zip P Q R f xs p.1 q.1)

  module _ {κ} (P : A → Type κ) where
    pub All-mem : (x : A) (xs : List A) → All P xs → x ∈ xs → P x
    All-mem x [] h m = absurd m
    All-mem x (y ∷ ys) h (inl e) = rw e h.0
    All-mem x (y ∷ ys) h (inr m) = All-mem x ys h.1 m

    pub All-of_mem : (xs : List A) → ((x : A) → x ∈ xs → P x) → All P xs
    All-of_mem [] f = tt
    All-of_mem (x ∷ xs) f = (f x (inl refl), All-of_mem xs (λ y m. f y (inr m)))

  pub mem-append_left : (x : A) (xs ys : List A) → x ∈ xs → x ∈ xs ++ ys
  mem-append_left x [] ys m = absurd m
  mem-append_left x (y ∷ xs) ys (inl e) = inl e
  mem-append_left x (y ∷ xs) ys (inr m) = inr (mem-append_left x xs ys m)

  pub mem-append_right : (x : A) (xs ys : List A) → x ∈ ys → x ∈ xs ++ ys
  mem-append_right x [] ys m = m
  mem-append_right x (y ∷ xs) ys m = inr (mem-append_right x xs ys m)

  pub mem_of_mem_append : (x : A) (xs ys : List A) → x ∈ xs ++ ys → (x ∈ xs) ⊎ (x ∈ ys)
  mem_of_mem_append x [] ys m = inr m
  mem_of_mem_append x (y ∷ xs) ys (inl e) = inl (inl e)
  mem_of_mem_append x (y ∷ xs) ys (inr m) = elim (mem_of_mem_append x xs ys m) [
    | inl a ↦ inl (inr a)
    | inr b ↦ inr b
  ]

  pub mem-keep_if :
      (x : A) (p : A → Bool) (xs : List A) → x ∈ keep_if p xs → (x ∈ xs) × (p x ≡ true)
  mem-keep_if x p [] m = absurd m
  mem-keep_if x p (y ∷ ys) m = elim (Bool-cases (p y)) [
    | inl e ↦ elim (rw (e, keep_if) at m) [
      | inl q ↦ (inl q, rw q e)
      | inr r ↦ let (a, b) = mem-keep_if x p ys r in (inr a, b)
    ]
    | inr e ↦ let (a, b) = mem-keep_if x p ys (rw (e, keep_if) at m) in (inr a, b)
  ]

  pub keep_if-mem : (x : A) (p : A → Bool) (xs : List A) → x ∈ xs → p x ≡ true → x ∈ keep_if p xs
  keep_if-mem x p [] m h = absurd m
  keep_if-mem x p (y ∷ ys) (inl q) h = let e : p y ≡ true = cc in rw (e, keep_if) (inl q)
  keep_if-mem x p (y ∷ ys) (inr m) h = elim (Bool-cases (p y)) [
    | inl e ↦ rw (e, keep_if) (inr (keep_if-mem x p ys m h))
    | inr e ↦ rw (e, keep_if) (keep_if-mem x p ys m h)
  ]

  pub any_of_mem : (x : A) (p : A → Bool) (xs : List A) → x ∈ xs → p x ≡ true → any p xs ≡ true
  any_of_mem x p [] m h = absurd m
  any_of_mem x p (y ∷ ys) (inl q) h = let e : p y ≡ true = cc in rw e
  any_of_mem x p (y ∷ ys) (inr m) h = ground (arith, any_of_mem x p ys m h)

  pub mem_of_any :
      (p : A → Bool) (xs : List A) → any p xs ≡ true → (x : A) × (x ∈ xs) × (p x ≡ true)
  mem_of_any p [] h = cc
  mem_of_any p (y ∷ ys) h = elim (Bool-cases (p y)) [
    | inl e ↦ (y, inl refl, e)
    | inr e ↦ let (x, m, q) = mem_of_any p ys (rw (e, any) at h) in (x, inr m, q)
  ]

module _ {ℓ} {A : Type ℓ} where
  pub keep_if-kept :
      (p : A → Bool) (x : A) (xs : List A) → p x ≡ true → keep_if p (x ∷ xs) ≡ x ∷ keep_if p xs
  keep_if-kept p x xs h = rw (h, keep_if) refl

  pub keep_if-dropped :
      (p : A → Bool) (x : A) (xs : List A) → p x ≡ false → keep_if p (x ∷ xs) ≡ keep_if p xs
  keep_if-dropped p x xs h = rw (h, keep_if) refl
