-- ===== src/Wer/Rates/Laws.antt =====
-- Splitting what `_normalize` joined gives the same words, and what the two rates are.
use mediahub_configs.Prelude.{
  ℕ, ◌+◌, ◌≡◌, ◌≢◌, ◌↔◌, refl, sym, ap, ◌∙◌, true, false, not, some, List, [], ◌∷◌, ◌++◌,
  if◌then◌else◌, length, ◌==◌, keep_if, All, arith, Bool-cases, inl, inr,
}
use mathlib.Core.List.{append-nil}
use mediahub_configs.Prelude.Equality.{list_eq, nat_eq}
use mediahub_configs.Wer.Table.{edit_distance}
use mediahub_configs.Wer.Trace.Cost.{edit_ops-cost, total}
use mediahub_configs.Wer.Optimal.{edit_distance-zero_iff, edit_distance_nil}
use mediahub_configs.Wer.Rates.{
  Tables, join, finish, split_from, split, normalize, WordErrors, word_error_rate, rate_of,
  char_error_rate,
}

distance_or_length :
    (ref hyp : List ℕ)
    → (if length ref == 0 then length hyp else edit_distance ref hyp) ≡ edit_distance ref hyp
distance_or_length [] hyp = sym (edit_distance_nil hyp)
distance_or_length (x ∷ ref) hyp = ground arith

module _ (t : Tables) where
  abbrev IsWord : List ℕ → Type 0
  IsWord w = (w ≢ []) × All (λ c. t.is_space c ≡ false) w

  finish-IsWord :
      (w : List ℕ) (ws : List (List ℕ))
      → All (λ c. t.is_space c ≡ false) w
      → All IsWord ws
      → All IsWord (finish w ws)
  unfolding finish
  finish-IsWord [] ws h hs = hs
  finish-IsWord (c ∷ cs) ws h hs = (((λ q. cc), h), hs)

  split_from-IsWord :
      (cs : List ℕ)
      → All (λ c. t.is_space c ≡ false) (split_from t cs).0 × All IsWord (split_from t cs).1
  unfolding split_from
  split_from-IsWord [] = (tt, tt)
  split_from-IsWord (c ∷ cs) = elim (Bool-cases (t.is_space c)) [
    | inl q ↦ let (a, b) = split_from-IsWord cs in rw q (tt, finish-IsWord _ _ a b)
    | inr q ↦ let (a, b) = split_from-IsWord cs in rw q ((q, a), b)
  ]

  split-IsWord : (cs : List ℕ) → All IsWord (split t cs)
  unfolding split
  split-IsWord cs = let (a, b) = split_from-IsWord cs in finish-IsWord _ _ a b

  split_from-append :
      (w r : List ℕ)
      → All (λ c. t.is_space c ≡ false) w
      → split_from t (w ++ r) ≡ (w ++ (split_from t r).0, (split_from t r).1)
  unfolding split_from
  split_from-append [] r h = refl
  split_from-append (c ∷ w) r h = rw (h.0, split_from-append w r h.1)

  split_from_word : (w : List ℕ) → All (λ c. t.is_space c ≡ false) w → split_from t w ≡ (w, [])
  unfolding split_from
  split_from_word [] h = refl
  split_from_word (c ∷ w) h = rw (h.0, split_from_word w h.1)

  finish_word : (w : List ℕ) (ws : List (List ℕ)) → w ≢ [] → finish w ws ≡ w ∷ ws
  unfolding finish
  finish_word [] ws h = absurd (h refl)
  finish_word (c ∷ w) ws h = refl

  split_from_space : (r : List ℕ) → t.is_space 32 ≡ true → split_from t (32 ∷ r) ≡ ([], split t r)
  unfolding split split_from
  split_from_space r h = rw h

  split_nothing : split t [] ≡ []
  unfolding split split_from
  split_nothing = refl

  split_word : (w : List ℕ) → IsWord w → split t w ≡ w ∷ []
  unfolding split
  split_word w h =
      ap (λ (p : List ℕ × List (List ℕ)). finish p.0 p.1) (split_from_word w h.1)
      ∙ finish_word w [] h.0

  split_word_space :
      (w r : List ℕ) → t.is_space 32 ≡ true → IsWord w → split t (w ++ (32 ∷ r)) ≡ w ∷ split t r
  unfolding split
  split_word_space w r s h =
      ap (λ (p : List ℕ × List (List ℕ)). finish p.0 p.1) (split_from-append w (32 ∷ r) h.1 ∙ parts)
      ∙ finish_word w (split t r) h.0
    where
      parts :
          ◌≡◌ {A = List ℕ × List (List ℕ)}
            (w ++ (split_from t (32 ∷ r)).0, (split_from t (32 ∷ r)).1)
            (w, split t r)
      parts = rw (split_from_space r s) (ap (λ l. (l, split t r)) (append-nil w))

  -- Joining words by spaces and splitting gives the words again, where a space is one.
  split-join : (ws : List (List ℕ)) → t.is_space 32 ≡ true → All IsWord ws → split t (join ws) ≡ ws
  unfolding join
  split-join [] h hs = split_nothing
  split-join (w ∷ []) h hs = split_word w hs.0
  split-join (w ∷ v ∷ ws) h hs =
      split_word_space w (join (v ∷ ws)) h hs.0 ∙ ap (λ l. w ∷ l) (split-join (v ∷ ws) h hs.1)

  -- The words of a text.
  abbrev pub tokens : List ℕ → List (List ℕ)
  tokens text = split t (keep_if (λ ch. not (t.is_punctuation ch)) (t.lower (t.nfkc text)))

  -- If the blank is a space, `word_error_rate` splits what `_normalize` has joined, and that gives
  -- the same words.
  split-normalize :
      (text : List ℕ) → t.is_space 32 ≡ true → split t (normalize t text) ≡ tokens text
  unfolding normalize
  split-normalize text h = split-join (tokens text) h (split-IsWord _)

  module _ (reference hypothesis : List ℕ) where
    abbrev ref_tokens : List (List ℕ)
    ref_tokens = split t (normalize t reference)

    abbrev hyp_tokens : List (List ℕ)
    hyp_tokens = split t (normalize t hypothesis)

    -- The result is returned, and its rate is the edit distance of the two lists of words over the
    -- number of the reference's words; without any it is 0 if the hypothesis has none, else infinite.
    pub word_error_rate_lem :
        (r : WordErrors) × (word_error_rate t reference hypothesis ≡ some r)
        × (r.wer
            ≡ rate_of (length ref_tokens) (length hyp_tokens) (edit_distance ref_tokens hyp_tokens))
        × (length ref_tokens + r.ops.insertions ≡ length hyp_tokens + r.ops.deletions)
    unfolding word_error_rate
    word_error_rate_lem =
        let (ops, ran, cost, balance) = edit_ops-cost ref_tokens hyp_tokens in
        (
          record {
            wer = rate_of (length ref_tokens) (length hyp_tokens) (total ops);
            ops = ops;
            ref_word_count = length ref_tokens;
          },
          rw (ran, word_error_rate),
          ap (rate_of (length ref_tokens) (length hyp_tokens)) cost,
          balance,
        )

    -- `char_error_rate` returns the edit distance, also where it does not call `_edit_distance`; it
    -- is 0 exactly if the normalized texts are the same.
    char_error_rate-distance :
        ((char_error_rate t reference hypothesis).distance
          ≡ edit_distance (normalize t reference) (normalize t hypothesis))
        × (((char_error_rate t reference hypothesis).distance ≡ 0)
            ↔ (normalize t reference ≡ normalize t hypothesis))
    unfolding char_error_rate
    char_error_rate-distance =
        let ref_chars = normalize t reference in
        let hyp_chars = normalize t hypothesis in
        let d = distance_or_length ref_chars hyp_chars in
        (
          d,
          (
            λ p. (edit_distance-zero_iff ref_chars hyp_chars).0 (sym d ∙ p),
            λ p. d ∙ (edit_distance-zero_iff ref_chars hyp_chars).1 p,
          ),
        )
