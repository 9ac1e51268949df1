-- ===== src/Subgen/Queue/Items.antt =====
-- The tasks of the heap.
use mediahub_configs.Prelude.{
  ℕ, ◌≡◌, subst, ap, ◌∙◌, false, none, some, List, [], ◌∷◌, ◌∈◌, ◌⊎◌, inl, inr, map, arith,
  Bool-cases, Option,
}
use mediahub_configs.Prelude.Equality.{Eq}
use mediahub_configs.Subgen.Queue.{
  Task, Entry, Queue, entry_lt, smallest, pop_from, pop, register, get, put, is_active,
}

module _ {P D : Type 0} where
  abbrev pub items : List (Entry P D) → List (Task P D)
  items = map (λ x. x.item)

  smallest-items :
      (t : Task P D) (x : Entry P D) (xs : List (Entry P D))
      → t ∈ items (x ∷ xs)
      → (t ≡ (smallest x xs).0.item) ⊎ (t ∈ items (smallest x xs).1)
  unfolding smallest
  smallest-items t x [] m = m
  smallest-items t x (y ∷ ys) m = elim (Bool-cases (entry_lt (smallest y ys).0 x)) [
    | inl e ↦ rw e (elim m [
      | inl here ↦ inr (inl here)
      | inr later ↦ elim (smallest-items t y ys later) [ inl a ↦ inl a | inr b ↦ inr (inr b) ]
    ])
    | inr e ↦ rw e m
  ]

  pop_from-items :
      (heap : List (Entry P D)) (q q' : Queue P D) (task t : Task P D)
      → pop_from heap q ≡ some (task, q')
      → t ∈ items heap
      → (t ≡ task) ⊎ (t ∈ items q'.heap)
  unfolding pop_from
  pop_from-items [] q q' task t h m = elim m [ ]
  pop_from-items (x ∷ xs) q q' task t h m =
      let first : (smallest x xs).0.item ≡ task =
        ap (λ o. elim o [ none ↦ task | some r ↦ r.0 ]) h in
      let heap : (smallest x xs).1 ≡ q'.heap =
        ap (λ o. elim o [ none ↦ [] | some r ↦ r.1.heap ]) h in
      elim (smallest-items t x xs m) [
        | inl a ↦ inl (a ∙ first)
        | inr b ↦ inr (subst (λ l. t ∈ items l) heap b)
      ]

module _ {P D : Type 0} ⦃e : Eq P⦄ where
  popped-of :
      (o : Option (Task P D × Queue P D)) (q' : Queue P D) (task : Task P D)
      → (let out : Option (Task P D × Queue P D) = elim o [
        | none ↦ none
        | some popped ↦ some (popped.0, register popped.0 popped.1)
      ] in
          out ≡ some (task, q'))
      → (popped : Queue P D) × (o ≡ some (task, popped)) × (popped.heap ≡ q'.heap)
  unfolding register
  popped-of none q' task h = absurd (cc)
  popped-of (some (found, popped)) q' task h =
      let same : found ≡ task = ap (λ o. elim o [ none ↦ task | some r ↦ r.0 ]) h in
      (
        popped,
        ap (λ x. some (x, popped)) same,
        ap (λ o. elim o [ none ↦ [] | some r ↦ r.1.heap ]) h,
      )

  -- A task of the heap is the one that is taken, or is left there.
  pub get-items :
      (q q' : Queue P D) (task t : Task P D)
      → get q ≡ some (task, q')
      → t ∈ items q.heap
      → (t ≡ task) ⊎ (t ∈ items q'.heap)
  unfolding get pop
  get-items q q' task t h m =
      let (popped, a, b) = popped-of (pop q) q' task h in
      elim (pop_from-items q.heap q popped task t a m) [
        | inl x ↦ inl x
        | inr y ↦ inr (subst (λ l. t ∈ items l) b y)
      ]

  pub put-items :
      (task t : Task P D) (now : ℕ) (q : Queue P D)
      → t ∈ items q.heap
      → t ∈ items (put task now q).1.heap
  unfolding put
  put-items task t now q m = ground (arith, m)

  -- A task whose path is not active is put in.
  pub put-new :
      (task : Task P D) (now : ℕ) (q : Queue P D)
      → is_active task.path q ≡ false
      → task ∈ items (put task now q).1.heap
  unfolding put is_active
  put-new task now q h = ground (arith, h)
