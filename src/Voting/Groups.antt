-- ===== src/Voting/Groups.antt =====
-- The dict that `_vote_slot` builds by `setdefault(key, []).append(item)`, its entries in the order
-- of insertion.
use mediahub_configs.Prelude.{
  false, List, [], ◌∷◌, ◌++◌, ◌≡◌, ◌≢◌, refl, sym, ap, All, ◌∈◌, keep_if, All-zip, All-mem,
  mem_of_mem_append, Bool-cases, inl, inr, if◌then◌else◌, ◌∙◌, arith,
}
use mathlib.Core.List.{append-nil, append_assoc}
use mediahub_configs.Prelude.Equality.{Eq, ◌=?◌}

module _ {A K : Type 0} ⦃e : Eq K⦄ (key : A → K) where
  -- groups.setdefault(k, []).append(a)
  pub add : K → A → List (K × List A) → List (K × List A)
  add k a [] = (k, a ∷ []) ∷ []
  add k a ((j, bs) ∷ g) = if j =? k then (j, bs ++ a ∷ []) ∷ g else (j, bs) ∷ add k a g

  unfoldable pub group_from : List (K × List A) → List A → List (K × List A)
  unfolding add
  group_from g [] = g
  group_from g (a ∷ bs) = group_from (add (key a) a g) bs

  -- The items with a key, in their order.
  abbrev pub members : K → List A → List A
  members k = keep_if (λ a. key a =? k)

  -- `g` holds, for each key of the items `xs` once, its items; and no other entry.
  abbrev IsFresh : K → List (K × List A) → Type 0
  IsFresh k = All (λ (p : K × List A). (p.0 =? k) ≡ false)

  abbrev AreDistinct : List (K × List A) → Type 0
  AreDistinct [] = Unit
  AreDistinct (p ∷ g) = All (λ (q : K × List A). (p.0 =? q.0) ≡ false) g × AreDistinct g

  pub record IsGrouping (xs : List A) (g : List (K × List A)) : Type 0 where
    pub distinct : AreDistinct g
    pub sound : All (λ (p : K × List A). p.1 ≡ members p.0 xs) g
    pub complete : (a : A) → a ∈ xs → (bs : List A) × ((key a, bs) ∈ g)
    pub inhabited : All (λ (p : K × List A). p.1 ≢ []) g

  members-append : (k : K) (xs ys : List A) → members k (xs ++ ys) ≡ members k xs ++ members k ys
  members-append k [] ys = refl
  members-append k (x ∷ xs) ys = ground (arith, members-append k xs ys)

  add-All_keys :
      (P : K → Type 0) (k : K) (a : A) (g : List (K × List A))
      → P k
      → All (λ (p : K × List A). P p.0) g
      → All (λ (p : K × List A). P p.0) (add k a g)
  unfolding add
  add-All_keys P k a [] h hs = (h, tt)
  add-All_keys P k a ((j, bs) ∷ g) h hs = elim (Bool-cases (j =? k)) [
    | inl q ↦ rw q hs
    | inr q ↦ rw q (hs.0, add-All_keys P k a g h hs.1)
  ]

  add-AreDistinct :
      (k : K) (a : A) (g : List (K × List A)) → AreDistinct g → AreDistinct (add k a g)
  unfolding add
  add-AreDistinct k a [] h = (tt, tt)
  add-AreDistinct k a ((j, bs) ∷ g) h = elim (Bool-cases (j =? k)) [
    | inl q ↦ rw q h
    | inr q ↦ rw q (add-All_keys (λ c. (j =? c) ≡ false) k a g q h.0, add-AreDistinct k a g h.1)
  ]

  beq_comm : (j k : K) → (j =? k) ≡ (k =? j)
  beq_comm j k = ground (arith, e.beq_iff j k, e.beq_iff k j)

  module _ (xs : List A) (a : A) where
    abbrev IsSound : List A → K × List A → Type 0
    IsSound ys p = p.1 ≡ members p.0 ys

    IsSound-append_other :
        (p : K × List A) → (key a =? p.0) ≡ false → IsSound xs p → IsSound (xs ++ a ∷ []) p
    IsSound-append_other p h s =
        s ∙ sym (members-append p.0 xs (a ∷ []) ∙ rw (h, keep_if) (append-nil _))

    members_self : members (key a) (a ∷ []) ≡ a ∷ []
    members_self = rw ((e.beq_iff (key a) (key a)).1 refl, keep_if)

    add-IsSound :
        (g : List (K × List A))
        → All (IsSound xs) g
        → AreDistinct g
        → (IsFresh (key a) g → members (key a) xs ≡ [])
        → All (IsSound (xs ++ a ∷ [])) (add (key a) a g)
    unfolding add
    add-IsSound [] s d new =
        (sym (members-append (key a) xs (a ∷ []) ∙ cc (new tt, members_self)), tt)
    add-IsSound ((j, bs) ∷ g) s d new = elim (Bool-cases (j =? key a)) [
      | inl q ↦
          let same : j ≡ key a = (e.beq_iff j (key a)).0 q in
          rw q (
            ap (λ l. l ++ a ∷ []) s.0
                ∙ sym (
                    members-append j xs (a ∷ [])
                    ∙ rw same (ap (λ l. members (key a) xs ++ l) members_self)),
            All-zip (λ (p : K × List A). (j =? p.0) ≡ false) (IsSound xs) (IsSound (xs ++ a ∷ []))
                (λ p h. IsSound-append_other p (rw same at h)) g d.0 s.1,
          )
      | inr q ↦ rw q (
        IsSound-append_other (j, bs) (beq_comm (key a) j ∙ q) s.0,
        add-IsSound g s.1 d.1 (λ fresh. new (q, fresh)),
      )
    ]

  add-keeps :
      (c k : K) (a : A) (cs : List A) (g : List (K × List A))
      → (c, cs) ∈ g
      → (ds : List A) × ((c, ds) ∈ add k a g)
  unfolding add
  add-keeps c k a cs [] m = absurd m
  add-keeps c k a cs ((j, bs) ∷ g) (inl q) = elim (Bool-cases (j =? k)) [
    | inl t ↦ (bs ++ a ∷ [], rw t (inl (ap (λ (p : K × List A). (p.0, bs ++ a ∷ [])) q)))
    | inr t ↦ (cs, rw t (inl q))
  ]
  add-keeps c k a cs ((j, bs) ∷ g) (inr m) = elim (Bool-cases (j =? k)) [
    | inl t ↦ (cs, rw t (inr m))
    | inr t ↦ let (ds, n) = add-keeps c k a cs g m in (ds, rw t (inr n))
  ]

  add-has : (k : K) (a : A) (g : List (K × List A)) → (ds : List A) × ((k, ds) ∈ add k a g)
  unfolding add
  add-has k a [] = (a ∷ [], inl refl)
  add-has k a ((j, bs) ∷ g) = elim (Bool-cases (j =? k)) [
    | inl t ↦ (bs ++ a ∷ [], rw t (inl (ap (λ i. (i, bs ++ a ∷ [])) (sym ((e.beq_iff j k).0 t)))))
    | inr t ↦ let (ds, n) = add-has k a g in (ds, rw t (inr n))
  ]

  append-ne-nil : (bs : List A) (a : A) → bs ++ a ∷ [] ≢ []
  append-ne-nil [] a h = cc
  append-ne-nil (b ∷ bs) a h = cc

  abbrev IsInhabited : K × List A → Type 0
  IsInhabited p = p.1 ≢ []

  add-IsInhabited :
      (k : K) (a : A) (g : List (K × List A)) → All IsInhabited g → All IsInhabited (add k a g)
  unfolding add
  add-IsInhabited k a [] h = ((λ q. cc), tt)
  add-IsInhabited k a ((j, bs) ∷ g) h = elim (Bool-cases (j =? k)) [
    | inl t ↦ rw t (append-ne-nil bs a, h.1)
    | inr t ↦ rw t (h.0, add-IsInhabited k a g h.1)
  ]

  members_none :
      (k : K) (xs : List A) → ((a : A) → a ∈ xs → (key a =? k) ≡ false) → members k xs ≡ []
  members_none k [] h = refl
  members_none k (x ∷ xs) h = rw (h x (inl refl), keep_if) (members_none k xs (λ a m. h a (inr m)))

  fresh-members :
      (k : K) (xs : List A) (g : List (K × List A))
      → ((a : A) → a ∈ xs → (bs : List A) × ((key a, bs) ∈ g))
      → IsFresh k g
      → members k xs ≡ []
  fresh-members k xs g complete fresh = members_none k xs λ a m.
      let (bs, n) = complete a m in
      All-mem (λ (p : K × List A). (p.0 =? k) ≡ false) (key a, bs) g fresh n

  -- One more item keeps the grouping.
  add-IsGrouping :
      (xs : List A) (a : A) (g : List (K × List A))
      → IsGrouping xs g
      → IsGrouping (xs ++ a ∷ []) (add (key a) a g)
  add-IsGrouping xs a g h = record {
    distinct = add-AreDistinct (key a) a g h.distinct;
    sound = add-IsSound xs a g h.sound h.distinct (fresh-members (key a) xs g h.complete);
    complete = λ b m. elim (mem_of_mem_append b xs (a ∷ []) m) [
      | inl old ↦ let (bs, n) = h.complete b old in add-keeps (key b) (key a) a bs g n
      | inr new ↦ elim new [ inl q ↦ rw q (add-has (key a) a g) | inr nowhere ↦ absurd nowhere ]
    ];
    inhabited = add-IsInhabited (key a) a g h.inhabited;
  }

  group_from-IsGrouping :
      (ys xs : List A) (g : List (K × List A))
      → IsGrouping ys g
      → IsGrouping (ys ++ xs) (group_from g xs)
  unfolding group_from
  group_from-IsGrouping ys [] g h = rw append-nil h
  group_from-IsGrouping ys (x ∷ xs) g h =
      rw (append_assoc ys (x ∷ []) xs) at
        (group_from-IsGrouping (ys ++ x ∷ []) xs (add (key x) x g) (add-IsGrouping ys x g h))

  pub group-IsGrouping : (xs : List A) → IsGrouping xs (group_from [] xs)
  group-IsGrouping xs =
      group_from-IsGrouping [] xs []
        (record { distinct = tt; sound = tt; complete = λ a m. absurd m; inhabited = tt })
