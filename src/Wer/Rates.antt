-- ===== src/Wer/Rates.antt =====
-- `_normalize`, `word_error_rate` and `char_error_rate`. A rate is a fraction or `float("inf")`.
pub mod Laws
use mediahub_configs.Prelude.{
  ℕ, zero, suc, ◌+◌, Bool, true, false, not, Option, none, some, List, [], ◌∷◌, ◌++◌, if◌then◌else◌,
  length, ◌==◌, keep_if,
}
use mediahub_configs.Prelude.Equality.{Eq, list_eq, nat_eq}
use mediahub_configs.Wer.Table.{edit_distance}
use mediahub_configs.Wer.Trace.{Ops, edit_ops}

pub data Rate : Type 0 where
  ratio : ℕ → ℕ → Rate
  infinite : Rate

-- Python's Unicode tables: NFKC normalization, `str.lower`, the punctuation categories and the
-- characters at which `str.split` splits.
pub record Tables : Type 0 where
  pub nfkc : List ℕ → List ℕ
  pub lower : List ℕ → List ℕ
  pub is_punctuation : ℕ → Bool
  pub is_space : ℕ → Bool

-- `" ".join(words)`
pub join : List (List ℕ) → List ℕ
join [] = []
join (w ∷ []) = w
join (w ∷ v ∷ ws) = w ++ (32 ∷ join (v ∷ ws))

-- An empty word is not a word.
pub finish : List ℕ → List (List ℕ) → List (List ℕ)
finish [] ws = ws
finish (c ∷ cs) ws = (c ∷ cs) ∷ ws

pub record WordErrors : Type 0 where
  pub wer : Rate
  pub ops : Ops
  pub ref_word_count : ℕ

abbrev pub rate_of : ℕ → ℕ → ℕ → Rate
rate_of zero zero errors = ratio 0 1
rate_of zero (suc m) errors = infinite
rate_of (suc n) m errors = ratio errors (suc n)

pub record CharErrors : Type 0 where
  pub cer : Rate
  pub distance : ℕ
  pub ref_char_count : ℕ

module _ (t : Tables) where
  -- `str.split()`: the first word, which may be empty, and the words after it.
  pub split_from : List ℕ → List ℕ × List (List ℕ)
  unfolding finish
  split_from [] = ([], [])
  split_from (c ∷ cs) =
      let rest = split_from cs in
      if t.is_space c then ([], finish rest.0 rest.1) else (c ∷ rest.0, rest.1)

  unfoldable pub split : List ℕ → List (List ℕ)
  unfolding split_from
  split cs = let rest = split_from cs in finish rest.0 rest.1

  unfoldable pub normalize : List ℕ → List ℕ
  unfolding split join
  normalize text = join (split (keep_if (λ ch. not (t.is_punctuation ch)) (t.lower (t.nfkc text))))

  -- `none` only if the backtrace did not end.
  pub word_error_rate : List ℕ → List ℕ → Option WordErrors
  unfolding normalize edit_ops
  word_error_rate reference hypothesis =
      let ref_tokens = split (normalize reference) in
      let hyp_tokens = split (normalize hypothesis) in
      elim (edit_ops ref_tokens hyp_tokens) [
        | none ↦ none
        | some ops ↦ some (record {
          wer =
              rate_of (length ref_tokens) (length hyp_tokens)
                (ops.substitutions + ops.deletions + ops.insertions);
          ops = ops;
          ref_word_count = length ref_tokens;
        })
      ]

  pub char_error_rate : List ℕ → List ℕ → CharErrors
  unfolding normalize edit_distance
  char_error_rate reference hypothesis =
      let ref_chars = normalize reference in
      let hyp_chars = normalize hypothesis in
      let distance =
        if length ref_chars == 0 then length hyp_chars else edit_distance ref_chars hyp_chars in
      record {
        cer = rate_of (length ref_chars) (length hyp_chars) distance;
        distance = distance;
        ref_char_count = length ref_chars;
      }
