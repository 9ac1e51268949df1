-- ===== src/Voting/Overlap.antt =====
-- `_resolve_overlaps`.
use mediahub_configs.Prelude.{
  ℕ, ◌≤◌, ◌≡◌, refl, true, List, [], ◌∷◌, ltb, if◌then◌else◌, arith, All, Bool-cases, inl, inr, ◌∈◌,
  ap, All-map,
}
use mediahub_configs.Prelude.Equality.{◌=?◌, list_eq, nat_eq}
use mediahub_configs.Voting.Words.{Word, Unicode, normalize}

-- The overlapping winner with another text: its start is moved to the previous end, and its end up
-- to its start where that would pass it.
pub clamp : ℕ → Word → Word
clamp to w = if ltb w.end to then record w { start = to; end = to } else record w { start = to }

-- A resolved word says what a winner says, as probable and of the same pass, and neither starts
-- nor ends before it.
pub record ComesFrom (ws : List Word) (r : Word) : Type 0 where
  pub winner : Word
  pub member : winner ∈ ws
  pub text : r.word ≡ winner.word
  pub probability : r.probability ≡ winner.probability
  pub from_pass : r.pass_id ≡ winner.pass_id
  pub not_earlier : (winner.start ≤ r.start) × (winner.end ≤ r.end)

ComesFrom-cons : (w : Word) (ws : List Word) (r : Word) → ComesFrom ws r → ComesFrom (w ∷ ws) r
ComesFrom-cons w ws r c = record {
  winner = c.winner;
  member = inr c.member;
  text = c.text;
  probability = c.probability;
  from_pass = c.from_pass;
  not_earlier = c.not_earlier;
}

ComesFrom-self : (w : Word) (ws : List Word) → ComesFrom (w ∷ ws) w
ComesFrom-self w ws = record {
  winner = w;
  member = inl refl;
  text = refl;
  probability = refl;
  from_pass = refl;
  not_earlier = omega arith;
}

ComesFrom-clamp :
    (to : ℕ) (w : Word) (ws : List Word) → ltb w.start to ≡ true → ComesFrom (w ∷ ws) (clamp to w)
unfolding clamp
ComesFrom-clamp to w ws h = record {
  winner = w;
  member = inl refl;
  text = ground arith;
  probability = ground arith;
  from_pass = ground arith;
  not_earlier = ground arith;
}

-- Each word starts at or after the end of the one before it.
abbrev pub IsApartFrom : ℕ → List Word → Type 0
IsApartFrom to [] = Unit
IsApartFrom to (w ∷ ws) = (to ≤ w.start) × IsApartFrom w.end ws

abbrev pub IsApart : List Word → Type 0
IsApart [] = Unit
IsApart (w ∷ ws) = IsApartFrom w.end ws

abbrev pub IsForward : Word → Type 0
IsForward w = w.start ≤ w.end

module _ (u : Unicode) where
  -- The loop, `last` being `resolved[-1]`.
  pub resolve_from : Word → List Word → List Word
  unfolding clamp
  resolve_from last [] = []
  resolve_from last (w ∷ ws) =
      let skipped = resolve_from last ws in
      let moved = clamp last.end w ∷ resolve_from (clamp last.end w) ws in
      let kept = w ∷ resolve_from w ws in
      if ltb w.start last.end
      then (if normalize u w.word =? normalize u last.word then skipped else moved)
      else kept

  unfoldable pub resolve_overlaps : List Word → List Word
  unfolding resolve_from
  resolve_overlaps [] = []
  resolve_overlaps (w ∷ ws) = w ∷ resolve_from w ws

  resolve_from-IsApartFrom :
      (last : Word) (ws : List Word) → IsApartFrom last.end (resolve_from last ws)
  unfolding resolve_from
  resolve_from-IsApartFrom last [] = tt
  resolve_from-IsApartFrom last (w ∷ ws) = ground (
    arith,
    resolve_from-IsApartFrom last ws,
    resolve_from-IsApartFrom w ws,
    resolve_from-IsApartFrom (clamp last.end w) ws,
  )

  -- Whatever the winners are, no resolved word starts before the one in front of it ends.
  pub resolve_overlaps-IsApart : (ws : List Word) → IsApart (resolve_overlaps ws)
  unfolding resolve_overlaps
  resolve_overlaps-IsApart [] = tt
  resolve_overlaps-IsApart (w ∷ ws) = resolve_from-IsApartFrom w ws

  resolve_from-IsForward :
      (last : Word) (ws : List Word) → All IsForward ws → All IsForward (resolve_from last ws)
  unfolding resolve_from
  resolve_from-IsForward last [] h = tt
  resolve_from-IsForward last (w ∷ ws) h = ground (
    arith,
    resolve_from-IsForward last ws h.1,
    resolve_from-IsForward w ws h.1,
    resolve_from-IsForward (clamp last.end w) ws h.1,
  )

  -- Words that end no earlier than they start are still so when the overlaps are resolved.
  resolve_overlaps-IsForward :
      (ws : List Word) → All IsForward ws → All IsForward (resolve_overlaps ws)
  unfolding resolve_overlaps
  resolve_overlaps-IsForward [] h = tt
  resolve_overlaps-IsForward (w ∷ ws) h = (h.0, resolve_from-IsForward w ws h.1)

  resolve_from_apart :
      (last : Word) (ws : List Word) → IsApartFrom last.end ws → resolve_from last ws ≡ ws
  unfolding resolve_from
  resolve_from_apart last [] h = refl
  resolve_from_apart last (w ∷ ws) h = ground (arith, resolve_from_apart w ws h.1)

  -- Winners that do not overlap are left as they are.
  resolve_overlaps_apart : (ws : List Word) → IsApart ws → resolve_overlaps ws ≡ ws
  unfolding resolve_overlaps
  resolve_overlaps_apart [] h = refl
  resolve_overlaps_apart (w ∷ ws) h = ap (λ l. w ∷ l) (resolve_from_apart w ws h)

  resolve_from-ComesFrom :
      (last : Word) (ws : List Word) → All (ComesFrom ws) (resolve_from last ws)
  unfolding resolve_from
  resolve_from-ComesFrom last [] = tt
  resolve_from-ComesFrom last (w ∷ ws) = elim (Bool-cases (ltb w.start last.end)) [
    | inl over ↦ elim (Bool-cases (normalize u w.word =? normalize u last.word)) [
      | inl same ↦ rw (over, same) (older _ (resolve_from-ComesFrom last ws))
      | inr other ↦
          rw (over, other)
            (
              ComesFrom-clamp last.end w ws over,
              older _ (resolve_from-ComesFrom (clamp last.end w) ws),
            )
    ]
    | inr apart ↦ rw apart (ComesFrom-self w ws, older _ (resolve_from-ComesFrom w ws))
  ]
    where
      older : (rs : List Word) → All (ComesFrom ws) rs → All (ComesFrom (w ∷ ws)) rs
      older = All-map (ComesFrom ws) (ComesFrom (w ∷ ws)) (ComesFrom-cons w ws)

  -- Every resolved word is one of the winners, but for times moved forward.
  pub resolve_overlaps-ComesFrom : (ws : List Word) → All (ComesFrom ws) (resolve_overlaps ws)
  unfolding resolve_overlaps
  resolve_overlaps-ComesFrom [] = tt
  resolve_overlaps-ComesFrom (w ∷ ws) = (
    ComesFrom-self w ws,
    All-map (ComesFrom ws) (ComesFrom (w ∷ ws)) (ComesFrom-cons w ws) _
        (resolve_from-ComesFrom w ws),
  )
