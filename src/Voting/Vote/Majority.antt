-- ===== src/Voting/Vote/Majority.antt =====
-- The majority vote of `_vote_slot`, against its description by counting.
use mediahub_configs.Voting.Vote.Quorum.{IsOnePass, quorum_iff}
use mediahub_configs.Prelude.{
  ◌≢◌, ℕ, ◌≤◌, ◌≡◌, refl, true, false, none, some, List, [], ◌∷◌, arith, ◌∈◌, All, All-mem, ◌↔◌,
  mem-keep_if, keep_if-mem, ap, sym, ◌∙◌,
}
use mathlib.Core.Path.{subst, subst₂}
use mediahub_configs.Prelude.Equality.{list_beq_iff, list_eq, nat_eq}
use mediahub_configs.Voting.Words.{Word, Unicode}
use mediahub_configs.Voting.Groups.{group_from, group-IsGrouping, IsGrouping, members}
use mediahub_configs.Voting.Best.{max_by, max_by-mem, max_by-upper}
use mediahub_configs.Voting.Vote.{
  support_lt, group_lt, probability_lt, text, best_word, best_group, vote_slot,
}

support_lt_trans :
    (a b c : List Word) → support_lt a b ≡ true → support_lt b c ≡ true → support_lt a c ≡ true
support_lt_trans a b c = ground arith

support_lt_irrefl : (a : List Word) → support_lt a a ≡ false
support_lt_irrefl a = ground arith

module _ (u : Unicode) where
  -- The words of the slot with a word's normalized text.
  abbrev pub supporters : List Word → Word → List Word
  supporters slot w = members (text u) (text u w) slot

  -- No text has more words in the slot or, with as many, a larger sum of probabilities; and no word
  -- with the winner's text is more probable.
  pub record IsVoted (slot : List Word) (w : Word) : Type 0 where
    pub member : w ∈ slot
    pub majority :
        (v : Word) → v ∈ slot → support_lt (supporters slot w) (supporters slot v) ≡ false
    pub likeliest : (v : Word) → v ∈ slot → text u v ≡ text u w → v.probability ≤ w.probability

  best_word-max :
      (group : List Word) (w : Word)
      → best_word group ≡ some w
      → (w ∈ group) × All (λ v. probability_lt w v ≡ false) group
  unfolding best_word
  best_word-max [] w h = cc
  best_word-max (x ∷ xs) w h =
      let e : max_by probability_lt x xs ≡ w = cc in
      let both : (max_by probability_lt x xs ∈ x ∷ xs)
          × All (λ v. probability_lt (max_by probability_lt x xs) v ≡ false) (x ∷ xs) =
        (
          max_by-mem probability_lt x xs,
          max_by-upper probability_lt (λ a b c p q. ground arith) (λ a. ground arith) x xs,
        ) in
      subst (λ r. (r ∈ x ∷ xs) × All (λ v. probability_lt r v ≡ false) (x ∷ xs)) e both

  IsVoted-of_best :
      (slot : List Word) (g : List (List ℕ × List Word)) (w : Word)
      → IsGrouping (text u) slot g
      → best_group g ≡ some w
      → IsVoted slot w
  unfolding best_group
  IsVoted-of_best slot [] w grouping h = cc
  IsVoted-of_best slot (g ∷ gs) w grouping h = record {
    member = (mem-keep_if w _ slot in_group).0;
    majority = λ v m.
        let (bs, entry) = grouping.complete v m in
        let above = All-mem (λ q. group_lt best q ≡ false) (text u v, bs) (g ∷ gs) upper entry in
        let theirs = All-mem _ (text u v, bs) (g ∷ gs) grouping.sound entry in
        subst₂ (λ a b. support_lt a b ≡ false) supported theirs above;
    likeliest = λ v m e.
        let beside : v ∈ best.1 =
          subst (λ l. v ∈ l) (sym supported)
            (keep_if-mem v _ slot m ((list_beq_iff (text u v) (text u w)).1 e)) in
        let most = All-mem (λ x. probability_lt w x ≡ false) v best.1 won.1 beside in ground arith;
  }
    where
      best : List ℕ × List Word
      best = max_by group_lt g gs

      upper : All (λ q. group_lt best q ≡ false) (g ∷ gs)
      upper =
          max_by-upper group_lt (λ a b c. support_lt_trans a.1 b.1 c.1) (λ a. support_lt_irrefl a.1)
            g gs

      group : best.1 ≡ members (text u) best.0 slot
      group =
          All-mem (λ p. p.1 ≡ members (text u) p.0 slot) best (g ∷ gs) grouping.sound
            (max_by-mem group_lt g gs)

      won : (w ∈ best.1) × All (λ v. probability_lt w v ≡ false) best.1
      won = best_word-max best.1 w h

      in_group : w ∈ members (text u) best.0 slot
      in_group = subst (λ l. w ∈ l) group won.0

      named : text u w ≡ best.0
      named = (list_beq_iff (text u w) best.0).0 (mem-keep_if w _ slot in_group).1

      supported : best.1 ≡ supporters slot w
      supported = group ∙ ap (λ k. members (text u) k slot) (sym named)

  -- The word that wins a slot stands in it; no text has more words in the slot or, with as many, a
  -- larger sum of probabilities; and no word with the winner's text is more probable.
  pub vote_slot-IsVoted : (slot : List Word) (w : Word) → vote_slot u slot ≡ some w → IsVoted slot w
  unfolding vote_slot
  vote_slot-IsVoted slot w h =
      IsVoted-of_best slot (group_from (text u) [] slot) w (group-IsGrouping (text u) slot)
        (ground arith)

  best_group-some :
      (slot : List Word) (g : List (List ℕ × List Word)) (v : Word) (m : v ∈ slot)
      → IsGrouping (text u) slot g
      → (w : Word) × (best_group g ≡ some w)
  unfolding best_group
  best_group-some slot [] v m grouping = absurd (grouping.complete v m).1
  best_group-some slot (g ∷ gs) v m grouping =
      go best.1
        (All-mem (λ p. p.1 ≢ []) best (g ∷ gs) grouping.inhabited (max_by-mem group_lt g gs))
    where
      best : List ℕ × List Word
      best = max_by group_lt g gs

      go : (group : List Word) → group ≢ [] → (w : Word) × (best_word group ≡ some w)
      go [] h = absurd (h refl)
      go (x ∷ xs) h = (max_by probability_lt x xs, refl)

  -- A slot has no winner exactly if all its words are of one pass.
  pub vote_slot-none : (slot : List Word) → (vote_slot u slot ≡ none) ↔ IsOnePass slot
  unfolding vote_slot
  vote_slot-none slot = (
    λ h v w m n.
        let (x, e) =
          best_group-some slot (group_from (text u) [] slot) v m (group-IsGrouping (text u) slot) in
        (quorum_iff slot).0 (ground arith) v w m n,
    λ one. let few = (quorum_iff slot).1 one in ground arith,
  )
