-- ===== src/Gemini/Keys/Configured.antt =====
-- `_get_configured_api_keys` returns each key once.
use mediahub_configs.Prelude.{
  ◌≡◌, ◌↔◌, ◌⊎◌, refl, true, List, [], ◌∷◌, ◌++◌, any, ◌∈◌, Bool-cases, inl, inr, mem_of_mem_append,
  mem-append_left, mem-append_right, any_of_mem, mem_of_any, sym, subst,
}
use mediahub_configs.Prelude.Equality.{Eq, ◌=?◌}
use mediahub_configs.Gemini.Keys.{add_key, configured_from, get_configured_api_keys}

module _ {K : Type 0} ⦃e : Eq K⦄ where
  -- No key occurs again later.
  abbrev pub AreDistinct : List K → Type 0
  AreDistinct [] = Unit
  AreDistinct (k ∷ ks) = (¬ (k ∈ ks)) × AreDistinct ks

  AreDistinct-snoc :
      (ks : List K) (k : K) → AreDistinct ks → ¬ (k ∈ ks) → AreDistinct (ks ++ k ∷ [])
  AreDistinct-snoc [] k h new = ((λ m. m), tt)
  AreDistinct-snoc (j ∷ ks) k h new = (
    λ m. elim (mem_of_mem_append j ks (k ∷ []) m) [
      | inl old ↦ h.0 old
      | inr last ↦ elim last [ inl q ↦ new (inl (sym q)) | inr nowhere ↦ nowhere ]
    ],
    AreDistinct-snoc ks k h.1 (λ m. new (inr m)),
  )

  add_key-AreDistinct :
      (key : K) (keys : List K) → AreDistinct keys → AreDistinct (add_key key keys)
  unfolding add_key
  add_key-AreDistinct key keys h = elim (Bool-cases (any (λ k. k =? key) keys)) [
    | inl q ↦ rw q h
    | inr q ↦ rw q (
        AreDistinct-snoc keys key h
          (λ m. cc (any_of_mem key (λ k. k =? key) keys m ((e.beq_iff key key).1 refl), q)))
  ]

  mem-add_key : (k key : K) (keys : List K) → (k ∈ add_key key keys) ↔ ((k ∈ keys) ⊎ (k ≡ key))
  unfolding add_key
  mem-add_key k key keys = elim (Bool-cases (any (λ k. k =? key) keys)) [
    | inl q ↦
        rw q
          (λ m. inl m, λ m. elim m [ inl a ↦ a | inr b ↦ subst (λ x. x ∈ keys) (sym b) (seen q) ])
    | inr q ↦ rw q (
      λ m. elim (mem_of_mem_append k keys (key ∷ []) m) [
        | inl a ↦ inl a
        | inr b ↦ elim b [ inl p ↦ inr p | inr nowhere ↦ absurd nowhere ]
      ],
      λ m. elim m [
        | inl a ↦ mem-append_left k keys (key ∷ []) a
        | inr p ↦ mem-append_right k keys (key ∷ []) (inl p)
      ],
    )
  ]
    where
      seen : any (λ k. k =? key) keys ≡ true → key ∈ keys
      seen q =
          let (x, m, p) = mem_of_any (λ k. k =? key) keys q in
          subst (λ y. y ∈ keys) ((e.beq_iff x key).0 p) m

  configured_from-lem :
      (keys raw : List K)
      → AreDistinct keys
      → AreDistinct (configured_from keys raw)
        × ((k : K) → (k ∈ configured_from keys raw) ↔ ((k ∈ keys) ⊎ (k ∈ raw)))
  unfolding configured_from
  configured_from-lem keys [] h =
      (h, λ k. (λ m. inl m, λ m. elim m [ inl a ↦ a | inr b ↦ absurd b ]))
  configured_from-lem keys (key ∷ raw) h =
      let (d, m) = configured_from-lem (add_key key keys) raw (add_key-AreDistinct key keys h) in
      (d, λ k. (λ n. from k ((m k).0 n), λ n. (m k).1 (to k n)))
    where
      from : (k : K) → ((k ∈ add_key key keys) ⊎ (k ∈ raw)) → (k ∈ keys) ⊎ (k ∈ key ∷ raw)
      from k (inl a) = elim ((mem-add_key k key keys).0 a) [ inl b ↦ inl b | inr p ↦ inr (inl p) ]
      from k (inr b) = inr (inr b)

      to : (k : K) → ((k ∈ keys) ⊎ (k ∈ key ∷ raw)) → (k ∈ add_key key keys) ⊎ (k ∈ raw)
      to k (inl a) = inl ((mem-add_key k key keys).1 (inl a))
      to k (inr (inl p)) = inl ((mem-add_key k key keys).1 (inr p))
      to k (inr (inr b)) = inr b

  -- The configured keys are kept, each once.
  get_configured_api_keys-AreDistinct :
      (raw : List K)
      → AreDistinct (get_configured_api_keys raw)
        × ((k : K) → (k ∈ get_configured_api_keys raw) ↔ (k ∈ raw))
  unfolding get_configured_api_keys
  get_configured_api_keys-AreDistinct raw =
      let (d, m) = configured_from-lem [] raw tt in
      (d, λ k. (λ n. elim ((m k).0 n) [ inl a ↦ absurd a | inr b ↦ b ], λ n. (m k).1 (inr n)))
