-- ===== src/Digest/Compose/Weeks.antt =====
-- A digest against the state that another one has saved.
use mediahub_configs.Prelude.{
  ℕ, ◌≡◌, refl, sym, ap, subst, ◌∙◌, ◌↔◌, ◌⊎◌, Bool, true, false, not, some, List, [], ◌∷◌, map,
  if◌then◌else◌, any, keep_if, keep_if-kept, keep_if-dropped, All, All-map, All-of_mem, ◌∈◌,
  any_of_mem, Bool-cases, inl, inr,
}
use mediahub_configs.Prelude.Equality.{Eq, ◌=?◌, list_eq, nat_eq, pair_eq}
use mediahub_configs.Prelude.Dict.{get, put, get-put}
use mediahub_configs.Digest.Groups.{Key, Group}
use mediahub_configs.Digest.Compose.{
  Seen, sigid, is_present, keys_of, new_keys, still_keys, gone_from, signatures_from,
  next_signatures, first_digest_or,
}

text_iff : (x y : List ℕ) → ((x =? y) ≡ true) ↔ (x ≡ y)
text_iff = let same : Eq (List ℕ) = list_eq in same.beq_iff

keep_if-all :
    {A : Type 0} (p : A → Bool) (xs : List A) → All (λ x. p x ≡ true) xs → keep_if p xs ≡ xs
keep_if-all p [] h = refl
keep_if-all p (x ∷ xs) h = keep_if-kept p x xs h.0 ∙ ap (λ l. x ∷ l) (keep_if-all p xs h.1)

keep_if-none :
    {A : Type 0} (p : A → Bool) (xs : List A) → All (λ x. p x ≡ false) xs → keep_if p xs ≡ []
keep_if-none p [] h = refl
keep_if-none p (x ∷ xs) h = keep_if-dropped p x xs h.0 ∙ keep_if-none p xs h.1

put-All :
    (P : List ℕ → Type 0) (k : List ℕ) (v : Seen) (d : List (List ℕ × Seen))
    → P k
    → All (λ x. P x.0) d
    → All (λ x. P x.0) (put k v d)
unfolding put
put-All P k v [] h hs = (h, tt)
put-All P k v ((j, w) ∷ d) h hs = elim (Bool-cases (j =? k)) [
  | inl q ↦ rw (q, put) hs
  | inr q ↦ rw (q, put) (hs.0, put-All P k v d h hs.1)
]

put-is_present :
    (id k : List ℕ) (v : Seen) (d : List (List ℕ × Seen))
    → (id ≡ k) ⊎ (is_present (get k d) ≡ true)
    → is_present (get k (put id v d)) ≡ true
put-is_present id k v d h = elim (Bool-cases (id =? k)) [
  | inl q ↦ ap is_present (get-put id k v d ∙ ap (λ c. if c then some v else get k d) q)
  | inr q ↦ elim h [
    | inl e ↦ cc ((text_iff id k).1 e, q)
    | inr e ↦ ap is_present (get-put id k v d ∙ ap (λ c. if c then some v else get k d) q) ∙ e
  ]
]

signatures_from-is_present :
    (end : ℕ) (prev : List (List ℕ × Seen)) (k : Key) (ks : List Key) (state : List (List ℕ × Seen))
    → (k ∈ ks) ⊎ (is_present (get (sigid k) state) ≡ true)
    → is_present (get (sigid k) (signatures_from end prev ks state)) ≡ true
unfolding signatures_from
signatures_from-is_present end prev k [] state (inl m) = absurd m
signatures_from-is_present end prev k [] state (inr h) = h
signatures_from-is_present end prev k (j ∷ ks) state (inl (inl e)) =
    signatures_from-is_present end prev k ks _
      (inr (put-is_present (sigid j) (sigid k) _ state (inl (ap sigid (sym e)))))
signatures_from-is_present end prev k (j ∷ ks) state (inl (inr m)) =
    signatures_from-is_present end prev k ks _ (inl m)
signatures_from-is_present end prev k (j ∷ ks) state (inr h) =
    signatures_from-is_present end prev k ks _
      (inr (put-is_present (sigid j) (sigid k) _ state (inr h)))

signatures_from-All :
    (P : List ℕ → Type 0) (end : ℕ) (prev : List (List ℕ × Seen)) (ks : List Key)
    (state : List (List ℕ × Seen))
    → All (λ k. P (sigid k)) ks
    → All (λ x. P x.0) state
    → All (λ x. P x.0) (signatures_from end prev ks state)
unfolding signatures_from
signatures_from-All P end prev [] state h hs = hs
signatures_from-All P end prev (k ∷ ks) state h hs =
    signatures_from-All P end prev ks _ h.1 (put-All P (sigid k) _ state h.0 hs)

-- Once the state of a digest is saved, a digest of the same groups finds nothing new and nothing gone.
pub digest_again :
    (rep : List (Key × Group)) (prev : List (List ℕ × Seen)) (end : ℕ)
    → (new_keys rep (next_signatures end rep prev) ≡ [])
      × ((still_keys rep (next_signatures end rep prev) ≡ keys_of rep)
          × (gone_from (next_signatures end rep prev) rep ≡ []))
unfolding new_keys still_keys gone_from next_signatures
digest_again rep prev end =
    let keys = keys_of rep in
    let state = signatures_from end prev keys [] in
    let present : All (λ k. is_present (get (sigid k) state) ≡ true) keys =
      All-of_mem (λ k. is_present (get (sigid k) state) ≡ true) keys
        (λ k m. signatures_from-is_present end prev k keys [] (inl m)) in
    let known : All (λ x. any (λ k. sigid k =? x.0) keys ≡ true) state =
      signatures_from-All (λ id. any (λ k. sigid k =? id) keys ≡ true) end prev keys []
        (All-of_mem (λ k. any (λ j. sigid j =? sigid k) keys ≡ true) keys
          (λ k m.
            any_of_mem k (λ j. sigid j =? sigid k) keys m ((text_iff (sigid k) (sigid k)).1 refl)))
        tt in
    (
      keep_if-none _ keys
          (All-map (λ k. is_present (get (sigid k) state) ≡ true) _ (λ k e. ap not e) keys present),
      (
        keep_if-all _ keys present,
        ap (map _) (
            keep_if-none _ state (
              All-map (λ x. any (λ k. sigid k =? x.0) keys ≡ true) _ (λ x e. ap not e) state
                known)),
      ),
    )

put-All_pairs :
    (P : List ℕ → Seen → Type 0) (k : List ℕ) (v : Seen) (d : List (List ℕ × Seen))
    → P k v
    → All (λ x. P x.0 x.1) d
    → All (λ x. P x.0 x.1) (put k v d)
unfolding put
put-All_pairs P k v [] h hs = (h, tt)
put-All_pairs P k v ((j, w) ∷ d) h hs = elim (Bool-cases (j =? k)) [
  | inl q ↦ rw (q, put) (subst (λ i. P i v) (sym ((text_iff j k).0 q)) h, hs.1)
  | inr q ↦ rw (q, put) (hs.0, put-All_pairs P k v d h hs.1)
]

signatures_from-first_digest :
    (end : ℕ) (prev : List (List ℕ × Seen)) (ks : List Key) (state : List (List ℕ × Seen))
    → All (λ x. x.1.first_digest ≡ first_digest_or end (get x.0 prev)) state
    → All
        (λ x. x.1.first_digest ≡ first_digest_or end (get x.0 prev))
        (signatures_from end prev ks state)
unfolding signatures_from
signatures_from-first_digest end prev [] state h = h
signatures_from-first_digest end prev (k ∷ ks) state h =
    signatures_from-first_digest end prev ks _ (
      put-All_pairs (λ id seen. seen.first_digest ≡ first_digest_or end (get id prev)) (sigid k) _
        state refl h)

-- A signature that was in the state keeps the digest that first had it; any other gets this one.
next_signatures-first_digest :
    (end : ℕ) (rep : List (Key × Group)) (prev : List (List ℕ × Seen))
    → All
        (λ x. x.1.first_digest ≡ first_digest_or end (get x.0 prev))
        (next_signatures end rep prev)
unfolding next_signatures
next_signatures-first_digest end rep prev =
    signatures_from-first_digest end prev (keys_of rep) [] tt
