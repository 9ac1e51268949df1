-- ===== src/Voting/Cluster.antt =====
-- `_cluster_words_into_slots`.
use mediahub_configs.Prelude.{
  ℕ, ◌-◌, ◌*◌, min, max, Bool, true, false, List, [], ◌∷◌, leb, ltb, if◌then◌else◌, ◌≡◌, ap, concat,
  ◌++◌, arith, refl,
}
use mediahub_configs.Voting.Words.{Word}

-- The union span of the current slot.
pub record Span : Type 0 where
  pub from : ℕ
  pub to : ℕ

-- The overlap of a word with the span, and the shorter of the two durations. A word that ends
-- before it starts has duration 0 here and a negative one in the source: both are not above 0.
pub overlap : Span → Word → ℕ
overlap s w = min s.to w.end - max s.from w.start

pub shorter : Span → Word → ℕ
shorter s w = min (w.end - w.start) (s.to - s.from)

module _ (num den : ℕ) where
  -- `ratio >= overlap_threshold`, the ratio being 0 where the shorter duration is.
  pub joins : Span → Word → Bool
  unfolding overlap shorter
  joins s w = if ltb 0 (shorter s w) then leb (num * shorter s w) (overlap s w * den) else leb num 0

  pub widen : Span → Word → Span
  widen s w = record { from = min s.from w.start; to = max s.to w.end }

  pub open_span : Word → Span
  open_span w = record { from = w.start; to = w.end }

  -- The loop from a word on, the current slot's span given: the words that still join the current
  -- slot, and the slots after it.
  pub cluster_from : Span → List Word → List Word × List (List Word)
  unfolding joins widen open_span
  cluster_from s [] = ([], [])
  cluster_from s (w ∷ ws) =
      let joined = cluster_from (widen s w) ws in
      let opened = cluster_from (open_span w) ws in
      elim (joins s w) [ true ↦ (w ∷ joined.0, joined.1) | false ↦ ([], (w ∷ opened.0) ∷ opened.1) ]

  unfoldable pub cluster_words_into_slots : List Word → List (List Word)
  unfolding cluster_from
  cluster_words_into_slots [] = []
  cluster_words_into_slots (w ∷ ws) =
      let rest = cluster_from (open_span w) ws in (w ∷ rest.0) ∷ rest.1

  cluster_from-concat :
      (s : Span) (ws : List Word) → (cluster_from s ws).0 ++ concat (cluster_from s ws).1 ≡ ws
  unfolding cluster_from
  cluster_from-concat s [] = refl
  cluster_from-concat s (w ∷ ws) =
      ground (arith, cluster_from-concat (widen s w) ws, cluster_from-concat (open_span w) ws)

  -- The slots, one after the other, are the words in their order: none is lost or repeated.
  pub concat-cluster_words_into_slots : (ws : List Word) → concat (cluster_words_into_slots ws) ≡ ws
  unfolding cluster_words_into_slots
  concat-cluster_words_into_slots [] = refl
  concat-cluster_words_into_slots (w ∷ ws) = ap (λ l. w ∷ l) (cluster_from-concat (open_span w) ws)

  -- Each of the words joins the span of those before it.
  abbrev pub Joins : Span → List Word → Type 0
  Joins s [] = Unit
  Joins s (w ∷ ws) = (joins s w ≡ true) × Joins (widen s w) ws

  abbrev pub span_after : Span → List Word → Span
  span_after s [] = s
  span_after s (w ∷ ws) = span_after (widen s w) ws

  -- No slot is empty, its first word does not join the span of the slot before it, and the others
  -- join the span of their own slot.
  abbrev pub AreSlotsAfter : Span → List (List Word) → Type 0
  AreSlotsAfter s [] = Unit
  AreSlotsAfter s ([] ∷ slots) = ⊥
  AreSlotsAfter s ((w ∷ ws) ∷ slots) =
      (joins s w ≡ false)
      × Joins (open_span w) ws
      × AreSlotsAfter (span_after (open_span w) ws) slots

  abbrev pub AreSlots : List (List Word) → Type 0
  AreSlots [] = Unit
  AreSlots ([] ∷ slots) = ⊥
  AreSlots ((w ∷ ws) ∷ slots) =
      Joins (open_span w) ws × AreSlotsAfter (span_after (open_span w) ws) slots

  cluster_from-AreSlotsAfter :
      (s : Span) (ws : List Word)
      → Joins s (cluster_from s ws).0
        × AreSlotsAfter (span_after s (cluster_from s ws).0) (cluster_from s ws).1
  unfolding cluster_from
  cluster_from-AreSlotsAfter s [] = (tt, tt)
  cluster_from-AreSlotsAfter s (w ∷ ws) = ground (
    arith,
    cluster_from-AreSlotsAfter (widen s w) ws,
    cluster_from-AreSlotsAfter (open_span w) ws,
  )

  -- A word joins the current slot exactly when it overlaps the running span enough: a slot is never
  -- empty, and a new one is opened only for a word that does not join.
  cluster_words_into_slots-AreSlots : (ws : List Word) → AreSlots (cluster_words_into_slots ws)
  unfolding cluster_words_into_slots
  cluster_words_into_slots-AreSlots [] = tt
  cluster_words_into_slots-AreSlots (w ∷ ws) = cluster_from-AreSlotsAfter (open_span w) ws
