-- ===== src/Voting/Segments.antt =====
-- `group_into_segments`: segments end where the silence to the next word is longer than `max_gap`.
use mediahub_configs.Prelude.{
  ℕ, ◌+◌, ◌≤◌, ◌<◌, ◌≡◌, refl, Bool, List, [], ◌∷◌, ◌++◌, concat, ltb, if◌then◌else◌, arith, ap,
}
use mediahub_configs.Voting.Words.{Word}

module _ (max_gap : ℕ) where
  -- `current["start"] - previous["end"] > max_gap`, which may be negative.
  abbrev pub is_gap : Word → Word → Bool
  is_gap previous current = ltb (previous.end + max_gap) current.start

  -- The loop over the pairs of neighbours: the rest of the current segment, and those after it.
  pub segments_from : Word → List Word → List Word × List (List Word)
  segments_from previous [] = ([], [])
  segments_from previous (current ∷ ws) =
      let rest = segments_from current ws in
      if is_gap previous current
      then ([], (current ∷ rest.0) ∷ rest.1)
      else (current ∷ rest.0, rest.1)

  unfoldable pub group_into_segments : List Word → List (List Word)
  unfolding segments_from
  group_into_segments [] = []
  group_into_segments (w ∷ ws) = let rest = segments_from w ws in (w ∷ rest.0) ∷ rest.1

  segments_from-concat :
      (w : Word) (ws : List Word) → (segments_from w ws).0 ++ concat (segments_from w ws).1 ≡ ws
  unfolding segments_from
  segments_from-concat w [] = refl
  segments_from-concat w (x ∷ ws) = ground (arith, segments_from-concat x ws)

  -- The segments, one after the other, are the words in their order.
  pub concat-group_into_segments : (ws : List Word) → concat (group_into_segments ws) ≡ ws
  unfolding group_into_segments
  concat-group_into_segments [] = refl
  concat-group_into_segments (w ∷ ws) = ap (λ l. w ∷ l) (segments_from-concat w ws)

  -- No gap inside, after `previous`.
  abbrev pub IsRun : Word → List Word → Type 0
  IsRun previous [] = Unit
  IsRun previous (w ∷ ws) = (w.start ≤ previous.end + max_gap) × IsRun w ws

  abbrev pub last_of : Word → List Word → Word
  last_of w [] = w
  last_of w (x ∷ ws) = last_of x ws

  -- Every segment has a word, a gap in front of its first word, and none inside.
  abbrev pub AreSegmentsAfter : Word → List (List Word) → Type 0
  AreSegmentsAfter previous [] = Unit
  AreSegmentsAfter previous ([] ∷ segments) = ⊥
  AreSegmentsAfter previous ((w ∷ ws) ∷ segments) =
      (previous.end + max_gap < w.start) × IsRun w ws × AreSegmentsAfter (last_of w ws) segments

  abbrev pub AreSegments : List (List Word) → Type 0
  AreSegments [] = Unit
  AreSegments ([] ∷ segments) = ⊥
  AreSegments ((w ∷ ws) ∷ segments) = IsRun w ws × AreSegmentsAfter (last_of w ws) segments

  segments_from-AreSegmentsAfter :
      (w : Word) (ws : List Word)
      → IsRun w (segments_from w ws).0
        × AreSegmentsAfter (last_of w (segments_from w ws).0) (segments_from w ws).1
  unfolding segments_from
  segments_from-AreSegmentsAfter w [] = (tt, tt)
  segments_from-AreSegmentsAfter w (x ∷ ws) = ground (arith, segments_from-AreSegmentsAfter x ws)

  -- A new segment begins exactly where a word starts more than `max_gap` after the end of the word
  -- in front of it, and no segment is empty.
  group_into_segments-AreSegments : (ws : List Word) → AreSegments (group_into_segments ws)
  unfolding group_into_segments
  group_into_segments-AreSegments [] = tt
  group_into_segments-AreSegments (w ∷ ws) = segments_from-AreSegmentsAfter w ws
