-- ===== src/Voting/Vote.antt =====
-- `_vote_slot`: the quorum of two passes, and the majority vote on normalized texts.
pub mod Quorum
pub mod Majority
use mediahub_configs.Prelude.{
  ℕ, ◌+◌, ◌≤◌, ◌<◌, ◌≡◌, ◌⊎◌, inl, inr, refl, Bool, true, false, ◌&&◌, ◌||◌, Option, none, some,
  List, [], ◌∷◌, length, any, ltb, ◌==◌, if◌then◌else◌, arith, ◌∈◌, All, keep_if, map, Bool-cases,
  All-mem, ◌↔◌, mem_of_any, any_of_mem, mem-keep_if, keep_if-mem, ap, sym, ◌∙◌, ==_iff,
}
use mediahub_configs.Prelude.Equality.{Eq, ◌=?◌, list_eq, nat_eq}
use mediahub_configs.Voting.Words.{Word, Unicode, normalize}
use mediahub_configs.Voting.Groups.{group_from, group-IsGrouping, IsGrouping, members}
use mediahub_configs.Voting.Best.{max_by, max_by-mem, max_by-upper}

-- The set of the pass ids, as a list without repetition.
pub contributing_passes : List Word → List ℕ
contributing_passes [] = []
contributing_passes (w ∷ ws) =
    let rest = contributing_passes ws in
    if any (λ p. p == w.pass_id) rest then rest else w.pass_id ∷ rest

abbrev pub total_probability : List Word → ℕ
total_probability [] = 0
total_probability (w ∷ ws) = w.probability + total_probability ws

-- `(len(group), sum of the probabilities)`, which Python compares from the left.
abbrev pub support_lt : List Word → List Word → Bool
support_lt a b =
    ltb (length a) (length b)
    || (length a == length b && ltb (total_probability a) (total_probability b))

abbrev pub group_lt : List ℕ × List Word → List ℕ × List Word → Bool
group_lt p q = support_lt p.1 q.1

abbrev pub probability_lt : Word → Word → Bool
probability_lt v w = ltb v.probability w.probability

-- `max` of the best group. A group is never empty; of no items `max` would raise.
pub best_word : List Word → Option Word
unfolding max_by
best_word [] = none
best_word (w ∷ ws) = some (max_by probability_lt w ws)

pub best_group : List (List ℕ × List Word) → Option Word
unfolding max_by best_word
best_group [] = none
best_group (g ∷ gs) = best_word (max_by group_lt g gs).1

module _ (u : Unicode) where
  abbrev pub text : Word → List ℕ
  text w = normalize u w.word

  unfoldable pub vote_slot : List Word → Option Word
  unfolding contributing_passes group_from best_group
  vote_slot slot =
      if ltb (length (contributing_passes slot)) 2
      then none
      else best_group (group_from text [] slot)
