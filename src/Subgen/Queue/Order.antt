-- ===== src/Subgen/Queue/Order.antt =====
-- The order in which tasks are taken, and when the queue is idle.
use mediahub_configs.Prelude.{
  ◌≡◌, refl, sym, ap, subst, inl, inr, true, false, none, some, List, [], ◌∷◌, ◌∈◌, All, All-map,
  map, arith, length, ◌==◌, Bool-cases,
}
use mediahub_configs.Prelude.Equality.{Eq}
use mediahub_configs.Subgen.Queue.{
  Task, Entry, Queue, entry_lt, smallest, pop_from, pop, is_idle, is_active, is_empty,
}
use mediahub_configs.Subgen.Queue.Counts.{count, holds-count, path_of, task_path}
use mediahub_configs.Subgen.Queue.Steps.{Reachable, Reachable-IsConsistent}

module _ {P D : Type 0} where
  -- No entry of the list goes before `x`.
  abbrev pub IsFirst : Entry P D → List (Entry P D) → Type 0
  IsFirst x xs = All (λ y. entry_lt y x ≡ false) xs

  entry_lt_asym : (y x : Entry P D) → entry_lt y x ≡ true → entry_lt x y ≡ false
  entry_lt_asym y x h = ground arith

  smallest_left :
      (x y : Entry P D) (ys : List (Entry P D))
      → entry_lt (smallest y ys).0 x ≡ true
      → (smallest x (y ∷ ys)).0 ≡ (smallest y ys).0
  unfolding smallest
  smallest_left x y ys h = ground arith

  smallest_kept :
      (x y : Entry P D) (ys : List (Entry P D))
      → entry_lt (smallest y ys).0 x ≡ false
      → (smallest x (y ∷ ys)).0 ≡ x
  unfolding smallest
  smallest_kept x y ys h = ground arith

  smallest-mem : (x : Entry P D) (xs : List (Entry P D)) → (smallest x xs).0 ∈ (x ∷ xs)
  unfolding smallest
  smallest-mem x [] = inl refl
  smallest-mem x (y ∷ ys) = elim (Bool-cases (entry_lt (smallest y ys).0 x)) [
    | inl e ↦ subst (λ m. m ∈ (x ∷ y ∷ ys)) (sym (smallest_left x y ys e)) (inr (smallest-mem y ys))
    | inr e ↦ inl (smallest_kept x y ys e)
  ]

  entry_lt_irrefl : (x : Entry P D) → entry_lt x x ≡ false
  entry_lt_irrefl x = ground arith

  entry_lt_trans_not :
      (y m x : Entry P D) → entry_lt y m ≡ false → entry_lt m x ≡ false → entry_lt y x ≡ false
  entry_lt_trans_not y m x h k = ground arith

  smallest-IsFirst : (x : Entry P D) (xs : List (Entry P D)) → IsFirst (smallest x xs).0 (x ∷ xs)
  unfolding smallest
  smallest-IsFirst x [] = (entry_lt_irrefl x, tt)
  smallest-IsFirst x (y ∷ ys) = elim (Bool-cases (entry_lt (smallest y ys).0 x)) [
    | inl e ↦
        subst (λ m. IsFirst m (x ∷ y ∷ ys)) (sym (smallest_left x y ys e))
          (entry_lt_asym (smallest y ys).0 x e, smallest-IsFirst y ys)
    | inr e ↦
        subst (λ m. IsFirst m (x ∷ y ∷ ys)) (sym (smallest_kept x y ys e))
          (
            entry_lt_irrefl x,
            All-map _ _ (λ z h. entry_lt_trans_not z (smallest y ys).0 x h e) (y ∷ ys)
                (smallest-IsFirst y ys),
          )
  ]

module _ {P : Type 0} ⦃e : Eq P⦄ where
  length-count : (p : P) (set : List P) → (length set == 0) ≡ true → count p set ≡ 0
  length-count p [] h = refl
  length-count p (q ∷ qs) h = absurd (ground arith)

module _ {P D : Type 0} ⦃e : Eq P⦄ where
  pop_from-IsFirst :
      (heap : List (Entry P D)) (q q' : Queue P D) (task : Task P D)
      → pop_from heap q ≡ some (task, q')
      → (x : Entry P D) × (x ∈ heap) × (x.item ≡ task) × IsFirst x heap
  unfolding pop_from
  pop_from-IsFirst [] q q' task h = absurd (cc)
  pop_from-IsFirst (x ∷ xs) q q' task h = (
    (smallest x xs).0,
    smallest-mem x xs,
    ap (λ o. elim o [ none ↦ task | some r ↦ r.0 ]) h,
    smallest-IsFirst x xs,
  )

  -- `get` takes the item of an entry in front of which no other one goes: detections first, then
  -- ASR requests, then the rest, and among those of one kind the oldest.
  pop-IsFirst :
      (q q' : Queue P D) (task : Task P D)
      → pop q ≡ some (task, q')
      → (x : Entry P D) × (x ∈ q.heap) × (x.item ≡ task) × IsFirst x q.heap
  unfolding pop
  pop-IsFirst q q' task h = pop_from-IsFirst q.heap q q' task h

  is_empty-count :
      (p : P) (heap : List (Entry P D)) → is_empty heap ≡ true → count p (map path_of heap) ≡ 0
  is_empty-count p [] h = refl
  is_empty-count p (x ∷ xs) h = absurd (cc)

  -- When the queue says that it is idle and no worker is inside `get`, no path is active.
  pub is_idle-is_active :
      (q : Queue P D)
      → Reachable q
      → is_idle q ≡ true
      → q.taken ≡ []
      → (p : P) → is_active p q ≡ false
  unfolding is_idle is_active
  is_idle-is_active q r idle none_taken p =
      let c = Reachable-IsConsistent q r in
      ground (
        arith,
        c.up_to_date p,
        holds-count p q.processing,
        is_empty-count p q.heap,
        length-count p q.processing,
        ap (λ l. count p (map task_path l)) none_taken,
      )
