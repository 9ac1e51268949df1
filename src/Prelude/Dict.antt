-- ===== src/Prelude/Dict.antt =====
-- Python's `dict` as an association list: `d.get(k)`, `d[k] = v` and `d.pop(k, None)`.
use mathlib.Core.Path.{◌≡◌, refl, subst}
use mathlib.Core.Option.{Option, none, some}
use mathlib.Core.List.{List, [], ◌∷◌}
use native.Mathlib.Omega.{arith}
use mathlib.Core.Logic.{inl, inr}
use mathlib.Core.Bool.{Bool}
use mediahub_configs.Prelude.Tests.{if◌then◌else◌, Bool-cases}
use mediahub_configs.Prelude.Lists.{keep_if}
use mediahub_configs.Prelude.Equality.{Eq, ◌=?◌}

module _ {K V : Type 0} ⦃e : Eq K⦄ where
  unfoldable pub get : K → List (K × V) → Option V
  get k [] = none
  get k ((j, v) ∷ d) = if j =? k then some v else get k d

  unfoldable pub put : K → V → List (K × V) → List (K × V)
  put k v [] = (k, v) ∷ []
  put k v ((j, w) ∷ d) = if j =? k then (j, v) ∷ d else (j, w) ∷ put k v d

  unfoldable pub pop : K → List (K × V) → List (K × V)
  pop k [] = []
  pop k ((j, v) ∷ d) = let rest = pop k d in if j =? k then rest else (j, v) ∷ rest

  pub get-put :
      (k j : K) (v : V) (d : List (K × V))
      → get j (put k v d) ≡ (if k =? j then some v else get j d)
  unfolding get put
  get-put k j v [] = refl
  get-put k j v ((i, w) ∷ d) =
      ground (arith, get-put k j v d, e.beq_iff k j, e.beq_iff i k, e.beq_iff i j)

  pub get-pop : (k j : K) (d : List (K × V)) → get j (pop k d) ≡ (if k =? j then none else get j d)
  unfolding get pop
  get-pop k j [] = ground arith
  get-pop k j ((i, w) ∷ d) =
      ground (arith, get-pop k j d, e.beq_iff k j, e.beq_iff i k, e.beq_iff i j)

  -- No key stands twice.
  abbrev pub HasDistinctKeys : List (K × V) → Type 0
  HasDistinctKeys [] = Unit
  HasDistinctKeys ((k, v) ∷ d) = (get k d ≡ none) × HasDistinctKeys d

  pub put-HasDistinctKeys :
      (k : K) (v : V) (d : List (K × V)) → HasDistinctKeys d → HasDistinctKeys (put k v d)
  unfolding get put
  put-HasDistinctKeys k v [] h = (refl, tt)
  put-HasDistinctKeys k v ((j, w) ∷ d) h = elim (Bool-cases (j =? k)) [
    | inl q ↦ rw (q, put) h
    | inr q ↦
        let absent : get j (put k v d) ≡ none =
          ground (arith, get-put k j v d, h.0, q, e.beq_iff k j, e.beq_iff j k) in
        rw (q, put) (absent, put-HasDistinctKeys k v d h.1)
  ]

  pub get-keep_if :
      (p : V → Bool) (k : K) (d : List (K × V))
      → HasDistinctKeys d
      → get k (keep_if (λ x. p x.1) d)
        ≡ elim (get k d) [ none ↦ none | some v ↦ if p v then some v else none ]
  unfolding get
  get-keep_if p k [] h = refl
  get-keep_if p k ((j, w) ∷ d) h =
      let ih = get-keep_if p k d h.1 in
      elim (Bool-cases (j =? k)) [
        | inl q ↦
            let here : get k d ≡ none = subst (λ i. get i d ≡ none) ((e.beq_iff j k).0 q) h.0 in
            elim (Bool-cases (p w)) [
              | inl r ↦ rw (r, q, get) (rw r refl)
              | inr r ↦ rw (r, q, get) (rw r (rw here at ih))
            ]
        | inr q ↦ elim (Bool-cases (p w)) [ inl r ↦ rw (r, q, get) ih | inr r ↦ rw (r, q, get) ih ]
      ]
