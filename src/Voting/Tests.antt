-- ===== src/Voting/Tests.antt =====
-- Runs of the model on the cases of test_qa_voting.py, and the theorems at concrete inputs.
use Prim.Native.Nat.{ℕ}
use mediahub_configs.Prelude.{
  concat, ◌+◌, ◌≡◌, refl, ◌&&◌, ◌||◌, none, some, List, [], ◌∷◌, map, leb, ◌==◌, if◌then◌else◌,
  length, All, inl, inr, arith,
}
use mediahub_configs.Voting.Words.{Word, Unicode, normalize}
use mediahub_configs.Voting.Cluster.{cluster_words_into_slots, concat-cluster_words_into_slots}
use mediahub_configs.Voting.Vote.{vote_slot}
use mediahub_configs.Voting.Vote.Quorum.{IsOnePass}
use mediahub_configs.Voting.Vote.Majority.{vote_slot-IsVoted, vote_slot-none, IsVoted}
use mediahub_configs.Voting.Overlap.{resolve_overlaps, resolve_overlaps-IsApart, IsApart}
use mediahub_configs.Voting.Ladder.{temperature_ladder}
use mediahub_configs.Voting.Reconcile.{reconcile_passes}
use mediahub_configs.Voting.Reconcile.Laws.{
  IsConfirmed, reconcile_passes-IsConfirmed, reconcile_passes-IsApart,
}

lower_char : ℕ → ℕ
lower_char c = if leb b'A' c && leb c b'Z' then c + 32 else c

-- The ASCII part of the tables.
abbrev ascii : Unicode
ascii = record {
  is_punctuation = λ c. c == b'.' || c == b',' || c == b'!' || c == b'?' || c == b'-';
  is_space = λ c. c == 32 || leb 9 c && leb c 13;
  lower = map lower_char;
}

abbrev heard : ℕ → ℕ → List ℕ → ℕ → ℕ → Word
heard from to text likely pass = record {
  start = from;
  end = to;
  word = text;
  probability = likely;
  pass_id = pass;
}

abbrev hello : List ℕ
hello = b'H' ∷ b'i' ∷ b'!' ∷ []

abbrev hello_plain : List ℕ
hello_plain = 32 ∷ b'h' ∷ b'i' ∷ []

abbrev yo : List ℕ
yo = b'y' ∷ b'o' ∷ []

abbrev slot : List Word
slot = heard 0 100 hello 60 0 ∷ heard 5 100 hello_plain 70 1 ∷ heard 0 90 yo 95 2 ∷ []

-- Two passes agree up to case and punctuation, and outvote a more probable dissenter.
outvoted : vote_slot ascii slot ≡ some (heard 5 100 hello_plain 70 1)
unfolding vote_slot lower_char normalize
outvoted = refl

vote_slot-IsVoted_example : IsVoted ascii slot (heard 5 100 hello_plain 70 1)
vote_slot-IsVoted_example = vote_slot-IsVoted ascii slot (heard 5 100 hello_plain 70 1) outvoted

abbrev lone : List Word
lone = heard 0 100 hello 90 1 ∷ []

lone-IsOnePass : IsOnePass lone
lone-IsOnePass v w (inl p) (inl q) = ground arith
lone-IsOnePass v w (inl p) (inr n) = absurd n
lone-IsOnePass v w (inr m) n = absurd m

vote_slot-none_example : vote_slot ascii lone ≡ none
vote_slot-none_example = (vote_slot-none ascii lone).1 lone-IsOnePass

-- A finer split joins the coarser word's slot: "hel" and "lo" against "hello".
abbrev split_words : List Word
split_words =
    heard 0 100 hello 90 0 ∷ heard 0 30 yo 90 1 ∷ heard 30 100 yo 90 1 ∷ heard 150 180 yo 90 0 ∷ []

split_joins : length (cluster_words_into_slots 1 2 split_words) ≡ 2
unfolding cluster_words_into_slots
split_joins = refl

abbrev overlapping : List Word
overlapping = heard 0 100 hello 90 0 ∷ heard 50 90 hello_plain 90 1 ∷ heard 60 80 yo 90 0 ∷ []

abbrev slot_winners : List Word
slot_winners = heard 0 100 hello 90 0 ∷ heard 100 190 yo 90 1 ∷ heard 260 300 hello 90 0 ∷ []

-- The duplicate goes, and the other word is moved to the end of the first.
overlap_resolved :
    resolve_overlaps ascii overlapping ≡ heard 0 100 hello 90 0 ∷ heard 100 100 yo 90 0 ∷ []
unfolding resolve_overlaps lower_char normalize
overlap_resolved = refl

default_ladder :
    temperature_ladder 3
    ≡ (0 ∷ 20 ∷ 40 ∷ 60 ∷ 80 ∷ 100 ∷ [])
      ∷ (30 ∷ 40 ∷ 60 ∷ 80 ∷ 100 ∷ [])
      ∷ (60 ∷ 80 ∷ 100 ∷ [])
      ∷ []
unfolding temperature_ladder
default_ladder = refl

abbrev passes : List (List Word)
passes =
    (heard 0 50 hello 90 0 ∷ heard 60 90 yo 50 0 ∷ []) ∷ (heard 2 48 hello_plain 80 0 ∷ []) ∷ []

reconciled : reconcile_passes ascii 1 2 passes ≡ heard 0 50 hello 90 0 ∷ []
unfolding reconcile_passes lower_char normalize
reconciled = refl

concat-cluster_words_into_slots_example :
    concat (cluster_words_into_slots 1 2 split_words) ≡ split_words
concat-cluster_words_into_slots_example = concat-cluster_words_into_slots 1 2 split_words

resolve_overlaps-IsApart_example : IsApart (resolve_overlaps ascii overlapping)
resolve_overlaps-IsApart_example = resolve_overlaps-IsApart ascii overlapping

reconcile_passes-IsConfirmed_example :
    All (IsConfirmed ascii 1 2 passes) (reconcile_passes ascii 1 2 passes)
reconcile_passes-IsConfirmed_example = reconcile_passes-IsConfirmed ascii 1 2 passes

reconcile_passes-IsApart_example : IsApart (reconcile_passes ascii 1 2 passes)
reconcile_passes-IsApart_example = reconcile_passes-IsApart ascii 1 2 passes
