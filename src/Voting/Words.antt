-- ===== src/Voting/Words.antt =====
-- The word dicts, and `_normalize`.
use mediahub_configs.Prelude.{ℕ, Bool, true, false, not, List, [], ◌∷◌, reverse, keep_if}

-- A word dict; `pass_id` is set by `reconcile_passes` before the words are pooled.
pub record Word : Type 0 where
  pub start : ℕ
  pub end : ℕ
  pub word : List ℕ
  pub probability : ℕ
  pub pass_id : ℕ

-- Python's Unicode tables: whether a character's category is a punctuation (`P…`), whether
-- `str.strip` removes it, and `str.lower`.
pub record Unicode : Type 0 where
  pub is_punctuation : ℕ → Bool
  pub is_space : ℕ → Bool
  pub lower : List ℕ → List ℕ

module _ (u : Unicode) where
  drop_spaces : List ℕ → List ℕ
  drop_spaces [] = []
  drop_spaces (c ∷ cs) = elim (u.is_space c) [ true ↦ drop_spaces cs | false ↦ c ∷ cs ]

  -- `str.strip`: whitespace goes at both ends.
  pub strip : List ℕ → List ℕ
  unfolding drop_spaces
  strip cs = reverse (drop_spaces (reverse (drop_spaces cs)))

  unfoldable pub normalize : List ℕ → List ℕ
  unfolding strip
  normalize text = u.lower (strip (keep_if (λ ch. not (u.is_punctuation ch)) text))
