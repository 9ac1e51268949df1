-- ===== src/Voting/Reconcile/Laws.antt =====
-- What `reconcile_passes` returns.
use mediahub_configs.Prelude.{
  ◌≢◌, sym, ◌∙◌, subst, any, not, mem_of_any, any_of_mem, Bool-cases, Option-cases, ◌==◌, ==_iff,
  All-map, ℕ, ◌≡◌, refl, false, none, some, List, [], ◌∷◌, arith, All, inl, inr, ◌∈◌, concat, ap,
  mem-append_left, mem-append_right, mem_of_mem_append,
}
use mediahub_configs.Prelude.Sort.{sort_by, mem-sort_by}
use mediahub_configs.Voting.Words.{Word, Unicode}
use mediahub_configs.Voting.Cluster.{cluster_words_into_slots, concat-cluster_words_into_slots}
use mediahub_configs.Voting.Vote.{vote_slot}
use mediahub_configs.Voting.Vote.Quorum.{IsOnePass}
use mediahub_configs.Voting.Vote.Majority.{vote_slot-none, vote_slot-IsVoted, IsVoted}
use mediahub_configs.Voting.Overlap.{
  resolve_overlaps-IsApart, resolve_overlaps-ComesFrom, ComesFrom, IsApart,
}
use mediahub_configs.Voting.Reconcile.{
  tag_words, pool_from, winners_of, pooled, reconcile_passes, start_of_word,
}
use mediahub_configs.Voting.Reconcile.Pooling.{IsWordOf, mem-pool_from, tag_words-IsOnePass}

of_first_pass : (p : List Word) (w : Word) → w ∈ pooled (p ∷ []) → w.pass_id ≡ 0
unfolding pooled pool_from
of_first_pass p w m =
    elim (mem_of_mem_append w (tag_words 0 p) []
      (mem-sort_by start_of_word w (pool_from 0 (p ∷ [])) m)) [
        | inl here ↦ tag_words-IsOnePass 0 p w here
        | inr nowhere ↦ absurd nowhere
      ]

module _ (u : Unicode) where
  winners_of-mem :
      (w : Word) (slots : List (List Word))
      → w ∈ winners_of u slots
      → (slot : List Word) × (slot ∈ slots) × (vote_slot u slot ≡ some w)
  unfolding winners_of
  winners_of-mem w [] m = absurd m
  winners_of-mem w (slot ∷ slots) m = elim (Option-cases (vote_slot u slot)) [
    | inl e ↦ let (s, n, q) = winners_of-mem w slots (rw (e, winners_of) at m) in (s, inr n, q)
    | inr found ↦
        let (v, e) = found in
        elim (rw (e, winners_of) at m) [
          | inl q ↦ (slot, inl refl, e ∙ ap some (sym q))
          | inr n' ↦ let (s, n, q) = winners_of-mem w slots n' in (s, inr n, q)
        ]
  ]

  mem-concat :
      (w : Word) (slot : List Word) (slots : List (List Word))
      → w ∈ slot
      → slot ∈ slots
      → w ∈ concat slots
  mem-concat w slot [] m n = absurd n
  mem-concat w slot (x ∷ slots) m (inl q) =
      mem-append_left w x (concat slots) (subst (λ l. w ∈ l) q m)
  mem-concat w slot (x ∷ slots) m (inr n) =
      mem-append_right w x (concat slots) (mem-concat w slot slots m n)

  -- All the slots are of one pass each, so no slot has a winner.
  winners_of_one_pass :
      (slots : List (List Word)) → IsOnePass (concat slots) → winners_of u slots ≡ []
  unfolding winners_of
  winners_of_one_pass [] one = refl
  winners_of_one_pass (slot ∷ slots) one =
      let lost : vote_slot u slot ≡ none =
        (vote_slot-none u slot).1
          (λ v w m n. one v w (mem-append_left v slot _ m) (mem-append_left w slot _ n)) in
      rw (lost, winners_of)
        (winners_of_one_pass slots
          (λ v w m n. one v w (mem-append_right v slot _ m) (mem-append_right w slot _ n)))

  rival :
      (slot : List Word) (w : Word)
      → vote_slot u slot ≡ some w
      → (v : Word) × (v ∈ slot) × (v.pass_id ≢ w.pass_id)
  rival slot w h = elim (Bool-cases (any (λ v. not (v.pass_id == w.pass_id)) slot)) [
    | inl e ↦
        let (v, m, q) = mem_of_any (λ v. not (v.pass_id == w.pass_id)) slot e in
        (v, m, λ same. ground arith)
    | inr e ↦ absurd (cc (h, (vote_slot-none u slot).1 (one e)))
  ]
    where
      same_as :
          any (λ v. not (v.pass_id == w.pass_id)) slot ≡ false
          → (v : Word) → v ∈ slot
          → v.pass_id ≡ w.pass_id
      same_as e v m = elim (Bool-cases (v.pass_id == w.pass_id)) [
        | inl q ↦ (==_iff v.pass_id w.pass_id).0 q
        | inr q ↦
            absurd (cc (e, any_of_mem v (λ x. not (x.pass_id == w.pass_id)) slot m (ap not q)))
      ]

      one : any (λ v. not (v.pass_id == w.pass_id)) slot ≡ false → IsOnePass slot
      one e v x m n = same_as e v m ∙ sym (same_as e x n)

  module _ (num den : ℕ) where
    -- A word of the result: its text and probability are those of a word of one of the passes, that
    -- word won its slot, and a word of another pass stands in the slot too.
    pub record IsConfirmed (passes : List (List Word)) (r : Word) : Type 0 where
      pub slot : List Word
      pub is_slot : slot ∈ cluster_words_into_slots num den (pooled passes)
      pub winner : Word
      pub voted : IsVoted u slot winner
      pub source : IsWordOf passes 0 winner
      pub other : Word
      pub other_source : IsWordOf passes 0 other
      pub other_in_slot : other ∈ slot
      pub other_pass : other.pass_id ≢ winner.pass_id
      pub text : r.word ≡ winner.word
      pub probability : r.probability ≡ winner.probability

    slot-IsWordOf :
        (passes : List (List Word)) (slot : List Word) (w : Word)
        → slot ∈ cluster_words_into_slots num den (pooled passes)
        → w ∈ slot
        → IsWordOf passes 0 w
    unfolding pooled
    slot-IsWordOf passes slot w n m = mem-pool_from 0 w passes (
        mem-sort_by start_of_word w (pool_from 0 passes) (
          subst (λ l. w ∈ l) (concat-cluster_words_into_slots num den (pooled passes))
            (mem-concat w slot _ m n)))

    confirm :
        (passes : List (List Word)) (r : Word)
        → ComesFrom
            (sort_by start_of_word
              (winners_of u (cluster_words_into_slots num den (pooled passes))))
            r
        → IsConfirmed passes r
    confirm passes r c =
        let (slot, n, e) =
          winners_of-mem c.winner _ (mem-sort_by start_of_word c.winner _ c.member) in
        let (v, m, ne) = rival slot c.winner e in
        let won = vote_slot-IsVoted u slot c.winner e in
        record {
          slot = slot;
          is_slot = n;
          winner = c.winner;
          voted = won;
          source = slot-IsWordOf passes slot c.winner n won.member;
          other = v;
          other_source = slot-IsWordOf passes slot v n m;
          other_in_slot = m;
          other_pass = ne;
          text = c.text;
          probability = c.probability;
        }

    -- Every word of the result has the text and the probability of a word of one of the passes that
    -- was voted the winner of its slot, in which a word of another pass stands as well.
    pub reconcile_passes-IsConfirmed :
        (passes : List (List Word)) → All (IsConfirmed passes) (reconcile_passes u num den passes)
    unfolding reconcile_passes
    reconcile_passes-IsConfirmed passes =
        All-map _ (IsConfirmed passes) (confirm passes) _ (resolve_overlaps-ComesFrom u _)

    -- No word of the result starts before the one in front of it ends.
    pub reconcile_passes-IsApart :
        (passes : List (List Word)) → IsApart (reconcile_passes u num den passes)
    unfolding reconcile_passes
    reconcile_passes-IsApart passes =
        resolve_overlaps-IsApart u
          (sort_by start_of_word (winners_of u (cluster_words_into_slots num den (pooled passes))))

    -- One pass alone has nothing to vote against: the result is empty.
    pub reconcile_passes_single : (p : List Word) → reconcile_passes u num den (p ∷ []) ≡ []
    unfolding reconcile_passes
    reconcile_passes_single p = rw (winners_of_one_pass _ one)
      where
        of_first : (w : Word) → w ∈ pooled (p ∷ []) → w.pass_id ≡ 0
        of_first w m = of_first_pass p w m

        one : IsOnePass (concat (cluster_words_into_slots num den (pooled (p ∷ []))))
        one = rw concat-cluster_words_into_slots (λ v w m n. of_first v m ∙ sym (of_first w n))
