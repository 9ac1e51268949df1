-- ===== src/Digest/Fetch/Paging.antt =====
-- Entries at different times are all fetched, whatever the order of the streams in an answer.
use mathlib.Core.List.Perm
use mathlib.Core.List.{Perm, foldr}
use native.Mathlib.Nat.{ℕ_set}
use mediahub_configs.Prelude.{
  ℕ, zero, suc, ◌≤◌, ◌<◌, ◌≡◌, refl, sym, ap, ◌∙◌, max, List, [], ◌∷◌, ◌++◌, if◌then◌else◌, ltb,
  length, All, All-map, All-zip, take, arith, Bool-cases, inl, inr,
}
use mediahub_configs.Digest.Fetch.{Entry, latest}

-- The entries from a time on, of a list in the order of time.
abbrev pub entries_from : ℕ → List Entry → List Entry
entries_from cur [] = []
entries_from cur (e ∷ es) = if ltb e.at_ns cur then entries_from cur es else e ∷ es

abbrev pub IsRising : List Entry → Type 0
IsRising [] = Unit
IsRising (e ∷ es) = All (λ x. e.at_ns < x.at_ns) es × IsRising es

foldr-length : (es : List Entry) → foldr (λ e n. suc n) 0 es ≡ length es
foldr-length [] = refl
foldr-length (e ∷ es) = ap (λ n. suc n) (foldr-length es)

pub length-perm : (xs ys : List Entry) → Perm xs ys → length xs ≡ length ys
length-perm xs ys p =
    sym (foldr-length xs)
    ∙ (Perm.foldr-eq ℕ_set (λ e n. suc n) (λ a b n. refl) p 0 ∙ foldr-length ys)

foldr-latest : (cur : ℕ) (es : List Entry) → foldr (λ e n. max e.at_ns n) cur es ≡ latest cur es
unfolding latest
foldr-latest cur [] = refl
foldr-latest cur (e ∷ es) = ap (λ n. max e.at_ns n) (foldr-latest cur es)

pub latest-perm : (cur : ℕ) (xs ys : List Entry) → Perm xs ys → latest cur xs ≡ latest cur ys
latest-perm cur xs ys p =
    sym (foldr-latest cur xs)
    ∙ (Perm.foldr-eq ℕ_set (λ e n. max e.at_ns n) (λ a b n. omega arith) p cur
        ∙ foldr-latest cur ys)

pub entries_from-rises :
    (cur : ℕ) (es : List Entry)
    → IsRising es
    → IsRising (entries_from cur es) × All (λ e. cur ≤ e.at_ns) (entries_from cur es)
entries_from-rises cur [] h = (tt, tt)
entries_from-rises cur (e ∷ es) h = elim (Bool-cases (ltb e.at_ns cur)) [
  | inl q ↦ rw q (entries_from-rises cur es h.1)
  | inr q ↦
      let later : All (λ x. cur ≤ x.at_ns) es =
        All-map (λ x. e.at_ns < x.at_ns) (λ x. cur ≤ x.at_ns) (λ x l. ground (arith, q)) es h.0 in
      rw q (h, (ground (arith, q), later))
]

pub entries_from-All :
    (P : Entry → Type 0) (cur : ℕ) (es : List Entry) → All P es → All P (entries_from cur es)
entries_from-All P cur [] h = tt
entries_from-All P cur (e ∷ es) h = elim (Bool-cases (ltb e.at_ns cur)) [
  | inl q ↦ rw q (entries_from-All P cur es h.1)
  | inr q ↦ rw q h
]

pub entries_from-entries_from :
    (a b : ℕ) (es : List Entry) → a ≤ b → entries_from b (entries_from a es) ≡ entries_from b es
entries_from-entries_from a b [] h = refl
entries_from-entries_from a b (e ∷ es) h = ground (arith, entries_from-entries_from a b es h)

-- What is left of a list when its first entries are old and the others are not.
pub entries_from-split :
    (b : ℕ) (old others : List Entry)
    → All (λ e. e.at_ns < b) old
    → All (λ e. b ≤ e.at_ns) others
    → entries_from b (old ++ others) ≡ others
entries_from-split b [] [] h k = refl
entries_from-split b [] (e ∷ es) h k = ground (arith, k.0)
entries_from-split b (e ∷ old) others h k =
    ground (arith, h.0, entries_from-split b old others h.1 k)

pub All-of_append :
    (P : Entry → Type 0) (xs ys : List Entry) → All P (xs ++ ys) → All P xs × All P ys
All-of_append P [] ys h = (tt, h)
All-of_append P (x ∷ xs) ys h = let (a, b) = All-of_append P xs ys h.1 in ((h.0, a), b)

pub IsRising-append : (xs ys : List Entry) → IsRising (xs ++ ys) → IsRising xs × IsRising ys
IsRising-append [] ys h = (tt, h)
IsRising-append (x ∷ xs) ys h =
    let (a, b) = IsRising-append xs ys h.1 in (((All-of_append _ xs ys h.0).0, a), b)

pub latest-All : (cur : ℕ) (es : List Entry) → All (λ e. e.at_ns ≤ latest cur es) es
unfolding latest
latest-All cur [] = tt
latest-All cur (e ∷ es) = (
  omega arith,
  All-map (λ x. x.at_ns ≤ latest cur es) (λ x. x.at_ns ≤ max e.at_ns (latest cur es))
      (λ x l. omega arith) es (latest-All cur es),
)

-- Entries behind rising ones are later than the latest of them.
pub latest-behind :
    (cur : ℕ) (es others : List Entry)
    → 0 < length es
    → All (λ e. cur ≤ e.at_ns) es
    → IsRising (es ++ others)
    → All (λ e. latest cur es < e.at_ns) others
unfolding latest
latest-behind cur [] others n h r = absurd (omega arith)
latest-behind cur (e ∷ []) others n h r =
    All-map (λ x. e.at_ns < x.at_ns) (λ x. max e.at_ns cur < x.at_ns) (λ x l. omega (arith, h.0))
      others r.0
latest-behind cur (e ∷ f ∷ es) others n h r =
    let later = latest-behind cur (f ∷ es) others (omega arith) h.1 r.1 in
    let behind = (All-of_append (λ x. e.at_ns < x.at_ns) (f ∷ es) others r.0).1 in
    All-zip (λ x. latest cur (f ∷ es) < x.at_ns) (λ x. e.at_ns < x.at_ns)
      (λ x. max e.at_ns (latest cur (f ∷ es)) < x.at_ns) (λ x a b. omega arith) others later behind

-- With two entries or more the latest one is later than the start.
pub latest-rises :
    (cur : ℕ) (es : List Entry)
    → 1 < length es
    → All (λ e. cur ≤ e.at_ns) es
    → IsRising es
    → cur < latest cur es
unfolding latest
latest-rises cur [] n h r = absurd (omega arith)
latest-rises cur (e ∷ []) n h r = absurd (omega arith)
latest-rises cur (e ∷ f ∷ es) n h r = omega (arith, h.0, h.1.0, r.0.0)

pub take-short : (n : ℕ) (es : List Entry) → length (take n es) < n → take n es ≡ es
take-short zero es h = absurd (omega arith)
take-short (suc n) [] h = refl
take-short (suc n) (e ∷ es) h = ap (λ l. e ∷ l) (take-short n es (omega arith))

pub latest-below :
    (cur stop : ℕ) (es : List Entry)
    → 0 < length es
    → All (λ e. cur ≤ e.at_ns) es
    → All (λ e. e.at_ns < stop) es
    → latest cur es < stop
unfolding latest
latest-below cur stop [] n h b = absurd (omega arith)
latest-below cur stop (e ∷ []) n h b = omega (arith, h.0, b.0)
latest-below cur stop (e ∷ f ∷ es) n h b =
    omega (arith, b.0, latest-below cur stop (f ∷ es) (omega arith) h.1 b.1)
