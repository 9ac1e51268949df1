-- ===== src/Wer/Tests.antt =====
-- Runs of the model on the cases of test_wer_cer.py, and the theorems at concrete inputs.
use mediahub_configs.Prelude.{
  ℕ, ◌+◌, ◌≤◌, ◌≡◌, refl, ◌&&◌, ◌||◌, some, List, [], ◌∷◌, map, leb, ◌==◌, if◌then◌else◌, length,
}
use mediahub_configs.Prelude.Equality.{nat_eq, list_eq}
use mediahub_configs.Wer.Levenshtein.{Script, replace, keep, done, insert}
use mediahub_configs.Wer.Table.{edit_distance}
use mediahub_configs.Wer.Trace.{Ops, edit_ops}
use mediahub_configs.Wer.Trace.Cost.{edit_ops-cost, total}
use mediahub_configs.Wer.Optimal.{edit_distance_attained, edit_distance-le}
use mediahub_configs.Wer.Rates.{Tables}

abbrev cat : List ℕ
cat = b'c' ∷ b'a' ∷ b't' ∷ []

abbrev bat : List ℕ
bat = b'b' ∷ b'a' ∷ b't' ∷ b's' ∷ []

distance_runs : edit_distance cat bat ≡ 2
unfolding edit_distance
distance_runs = refl

ops_run : edit_ops cat bat ≡ some (record { substitutions = 1; deletions = 0; insertions = 1 })
unfolding edit_ops
ops_run = refl

edit_ops-cost_example :
    (ops : Ops) × (edit_ops cat bat ≡ some ops)
    × (total ops ≡ edit_distance cat bat)
    × (length cat + ops.insertions ≡ length bat + ops.deletions)
edit_ops-cost_example = edit_ops-cost cat bat

edit_distance_attained_example : Script cat bat (edit_distance cat bat)
edit_distance_attained_example = edit_distance_attained cat bat

abbrev rename : Script cat bat 2
rename = replace b'c' b'b' (keep b'a' b'a' refl (keep b't' b't' refl (insert b's' done)))

edit_distance-le_example : edit_distance cat bat ≤ 2
edit_distance-le_example = edit_distance-le cat bat 2 rename

-- The ASCII part of the tables.
abbrev ascii : Tables
ascii = record {
  nfkc = λ s. s;
  lower = map (λ c. if leb b'A' c && leb c b'Z' then c + 32 else c);
  is_punctuation = λ c. c == b'.' || c == b',' || c == b'!';
  is_space = λ c. c == 32 || leb 9 c && leb c 13;
}

abbrev said : List ℕ
said = b'O' ∷ b'k' ∷ b',' ∷ 32 ∷ 32 ∷ b'g' ∷ b'o' ∷ b'!' ∷ []

abbrev wrote : List ℕ
wrote = b'o' ∷ b'k' ∷ 32 ∷ b'n' ∷ b'o' ∷ []
