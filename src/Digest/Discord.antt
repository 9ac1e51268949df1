-- ===== src/Digest/Discord.antt =====
-- `split_discord`: a text in parts that a message can hold.
use mediahub_configs.Prelude.{
  ℕ, ◌+◌, ◌≤◌, ◌<◌, ◌≡◌, refl, ap, ◌∙◌, Bool, true, false, not, ◌&&◌, List, [], ◌∷◌, ◌++◌,
  if◌then◌else◌, ltb, length, length-append, All, arith, Bool-cases, inl, inr, concat,
}
use mathlib.Core.List.{append-nil, append_assoc}
use mediahub_configs.Prelude.Text.{split_on, ended_by, ended_by-split_on}

abbrev pub is_empty : List ℕ → Bool
is_empty [] = true
is_empty (x ∷ xs) = false

module _ (is_space : ℕ → Bool) where
  -- `not cur.strip()`
  abbrev pub is_blank : List ℕ → Bool
  is_blank [] = true
  is_blank (x ∷ xs) = is_space x && is_blank xs

  -- `cur` goes out in front of a line that it has no room for.
  unfoldable pub split_from : ℕ → List (List ℕ) → List ℕ → List (List ℕ)
  split_from limit [] cur = if is_blank cur then [] else cur ∷ []
  split_from limit (ln ∷ lines) cur =
      let full = ltb limit (length cur + length ln + 1) && not (is_empty cur) in
      let rest = split_from limit lines ((if full then [] else cur) ++ (ln ++ 10 ∷ [])) in
      if full then cur ∷ rest else rest

  unfoldable pub split_discord : ℕ → List ℕ → List (List ℕ)
  unfolding split_from
  split_discord limit text = split_from limit (split_on 10 text) []

  split_from-bounds :
      (limit : ℕ) (lines : List (List ℕ)) (cur : List ℕ)
      → All (λ ln. length ln < limit) lines
      → length cur ≤ limit
      → All (λ part. length part ≤ limit) (split_from limit lines cur)
  unfolding split_from
  split_from-bounds limit [] cur h c = elim (Bool-cases (is_blank cur)) [
    | inl e ↦ rw (e, split_from) tt
    | inr e ↦ rw (e, split_from) (c, tt)
  ]
  split_from-bounds limit (ln ∷ lines) cur h c =
      let full = ltb limit (length cur + length ln + 1) && not (is_empty cur) in
      let added : (kept : List ℕ) → length (kept ++ (ln ++ 10 ∷ [])) ≡ length kept + length ln + 1 =
        λ kept. omega (arith, length-append kept (ln ++ 10 ∷ []), length-append ln (10 ∷ [])) in
      elim (Bool-cases full) [
        | inl e ↦
            rw (e, split_from)
              (c, split_from-bounds limit lines _ h.1 (omega (arith, added [], h.0)))
        | inr e ↦
            rw (e, split_from)
              (split_from-bounds limit lines _ h.1 (ground (arith, e, added cur, h.0)))
      ]

  -- If each line of the text is shorter than the limit, no part is longer than it.
  pub split_discord-bounds :
      (limit : ℕ) (text : List ℕ)
      → All (λ ln. length ln < limit) (split_on 10 text)
      → All (λ part. length part ≤ limit) (split_discord limit text)
  unfolding split_discord
  split_discord-bounds limit text h = split_from-bounds limit (split_on 10 text) [] h (omega arith)

  split_from-whole :
      (limit : ℕ) (lines : List (List ℕ)) (cur : List ℕ)
      → (tail : List ℕ) × ((is_blank tail ≡ true)
          × (concat (split_from limit lines cur) ++ tail ≡ cur ++ ended_by 10 lines))
  unfolding split_from
  split_from-whole limit [] cur = elim (Bool-cases (is_blank cur)) [
    | inl e ↦ (cur, (e, rw (e, append-nil cur, split_from) refl))
    | inr e ↦ ([], (refl, rw (e, split_from) (ap (λ l. l ++ []) (append-nil cur))))
  ]
  split_from-whole limit (ln ∷ lines) cur =
      let full = ltb limit (length cur + length ln + 1) && not (is_empty cur) in
      let line = ln ++ 10 ∷ [] in
      let behind = ended_by 10 lines in
      let joined = append_assoc ln (10 ∷ []) behind in
      elim (Bool-cases full) [
        | inl e ↦
            let (tail, found) = split_from-whole limit lines line in
            let (blank, whole) = found in
            let rest = split_from limit lines line in
            (
              tail,
              (
                blank,
                rw (e, split_from)
                    (append_assoc cur (concat rest) tail ∙ ap (λ l. cur ++ l) (whole ∙ joined)),
              ),
            )
        | inr e ↦
            let (tail, found) = split_from-whole limit lines (cur ++ line) in
            let (blank, whole) = found in
            (
              tail,
              (
                blank,
                rw (e, split_from)
                    (whole ∙ (append_assoc cur line behind ∙ ap (λ l. cur ++ l) joined)),
              ),
            )
      ]

  -- The parts, one after the other, are the text with a line end behind it, but for blank lines at
  -- its end.
  pub concat-split_discord :
      (limit : ℕ) (text : List ℕ)
      → (tail : List ℕ) × ((is_blank tail ≡ true)
          × (concat (split_discord limit text) ++ tail ≡ text ++ 10 ∷ []))
  unfolding split_discord
  concat-split_discord limit text =
      let (tail, found) = split_from-whole limit (split_on 10 text) [] in
      (tail, (found.0, found.1 ∙ ended_by-split_on 10 text))
