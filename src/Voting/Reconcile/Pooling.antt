-- ===== src/Voting/Reconcile/Pooling.antt =====
-- Where the pooled words come from.
use mediahub_configs.Prelude.{
  ◌∙◌, get_elem?, ℕ, suc, ◌+◌, ◌≡◌, refl, some, List, [], ◌∷◌, arith, inl, inr, ◌∈◌, ap,
  mem_of_mem_append,
}
use mediahub_configs.Voting.Words.{Word}
use mediahub_configs.Voting.Reconcile.{tag_words, pool_from}

-- The word with its pass's index in place of whatever `pass_id` it had.
pub record IsWordOf (passes : List (List Word)) (first : ℕ) (w : Word) : Type 0 where
  pub index : ℕ
  pub pass : List Word
  pub said : Word
  pub at_index : get_elem? passes index ≡ some pass
  pub in_pass : said ∈ pass
  pub tagged : w ≡ record said { pass_id = first + index }

mem-tag_words :
    (i : ℕ) (w : Word) (p : List Word)
    → w ∈ tag_words i p
    → (o : Word) × (o ∈ p) × (w ≡ record o { pass_id = i })
mem-tag_words i w [] m = absurd m
mem-tag_words i w (o ∷ p) (inl q) = (o, inl refl, q)
mem-tag_words i w (o ∷ p) (inr m) = let (x, n, q) = mem-tag_words i w p m in (x, inr n, q)

pub mem-pool_from :
    (first : ℕ) (w : Word) (passes : List (List Word))
    → w ∈ pool_from first passes
    → IsWordOf passes first w
unfolding pool_from
mem-pool_from first w [] m = absurd m
mem-pool_from first w (p ∷ ps) m = elim (mem_of_mem_append w (tag_words first p) _ m) [
  | inl here ↦
      let (o, n, q) = mem-tag_words first w p here in
      record {
        index = 0;
        pass = p;
        said = o;
        at_index = refl;
        in_pass = n;
        tagged = q ∙ ap (λ i. record o { pass_id = i }) (omega arith);
      }
  | inr there ↦
      let h = mem-pool_from (first + 1) w ps there in
      record {
        index = suc h.index;
        pass = h.pass;
        said = h.said;
        at_index = h.at_index;
        in_pass = h.in_pass;
        tagged = h.tagged ∙ ap (λ i. record h.said { pass_id = i }) (omega arith);
      }
]

pub tag_words-IsOnePass : (i : ℕ) (p : List Word) (w : Word) → w ∈ tag_words i p → w.pass_id ≡ i
tag_words-IsOnePass i p w m =
    let (o, n, q) = mem-tag_words i w p m in ap (λ (x : Word). x.pass_id) q
