-- ===== src/Voting/Reconcile.antt =====
-- `reconcile_passes`: number the passes, pool and sort their words, cluster, vote, sort, resolve.
mod Pooling
pub mod Laws
use mediahub_configs.Prelude.{
  ◌≢◌, sym, ◌∙◌, subst, any, not, mem_of_any, any_of_mem, Bool-cases, Option-cases, ◌==◌, get_elem?,
  ℕ, zero, suc, ◌+◌, ◌≤◌, ◌<◌, ◌≡◌, refl, Bool, true, false, Option, none, some, List, [], ◌∷◌,
  ◌++◌, arith, All, inl, inr, ◌∈◌, concat, ap, mem-append_left, mem-append_right, mem_of_mem_append,
  map,
}
use mediahub_configs.Prelude.Sort.{sort_by, mem-sort_by, sort_by-IsSortedBy}
use mediahub_configs.Voting.Words.{Word, Unicode}
use mediahub_configs.Voting.Cluster.{cluster_words_into_slots, concat-cluster_words_into_slots}
use mediahub_configs.Voting.Vote.{vote_slot}
use mediahub_configs.Voting.Vote.Quorum.{IsOnePass}
use mediahub_configs.Voting.Vote.Majority.{vote_slot-none, vote_slot-IsVoted, IsVoted}
use mediahub_configs.Voting.Overlap.{resolve_overlaps, resolve_overlaps-IsApart, IsApart}

abbrev pub tag_words : ℕ → List Word → List Word
tag_words pass_id [] = []
tag_words pass_id (w ∷ ws) = record w { pass_id = pass_id } ∷ tag_words pass_id ws

-- `for pass_id, pass_words in enumerate(passes)`, from `pass_id` on.
pub pool_from : ℕ → List (List Word) → List Word
pool_from pass_id [] = []
pool_from pass_id (p ∷ ps) = tag_words pass_id p ++ pool_from (pass_id + 1) ps

abbrev pub start_of_word : Word → ℕ
start_of_word w = w.start

pub pooled : List (List Word) → List Word
unfolding pool_from sort_by
pooled passes = sort_by start_of_word (pool_from 0 passes)

module _ (u : Unicode) where
  -- The winners of the slots that have one.
  pub winners_of : List (List Word) → List Word
  unfolding vote_slot
  winners_of [] = []
  winners_of (slot ∷ slots) =
      let rest = winners_of slots in elim (vote_slot u slot) [ none ↦ rest | some w ↦ w ∷ rest ]

  module _ (num den : ℕ) where
    unfoldable pub reconcile_passes : List (List Word) → List Word
    unfolding pooled cluster_words_into_slots winners_of sort_by resolve_overlaps
    reconcile_passes passes =
        resolve_overlaps u
          (sort_by start_of_word (winners_of (cluster_words_into_slots num den (pooled passes))))
