-- ===== src/Session/Bedrock.antt =====
-- `bedrock_players`: a ping is sent up to three times, and the fifth field of the answer is read.
use mediahub_configs.Prelude.{
  ℕ, zero, suc, Option, none, some, List, [], ◌∷◌, if◌then◌else◌, take, drop, get_elem?,
}
use mediahub_configs.Prelude.Equality.{◌=?◌, list_eq, nat_eq}
use mediahub_configs.Prelude.Text.{split_on}
use mediahub_configs.Session.Java.{ℤ, Players, absent, unreadable, online}

module _ (decode : List ℕ → List ℕ) (to_int : List ℕ → Option ℤ) where
  -- An answer is one if it starts with 0x1c; its text follows 35 bytes, with fields between ";",
  -- and to read a missing one, or one that is no number, raises.
  unfoldable pub bedrock_answer : List ℕ → Players
  unfolding split_on
  bedrock_answer reply =
      if take 1 reply =? (28 ∷ [])
      then elim (get_elem? (split_on 59 (decode (drop 35 reply))) 4) [
        | none ↦ unreadable
        | some field ↦ elim (to_int field) [ none ↦ unreadable | some n ↦ online n ]
      ]
      else unreadable

  pub tries : ℕ → (ℕ → Option (List ℕ)) → ℕ → Players
  unfolding bedrock_answer
  tries zero answer i = absent
  tries (suc left) answer i = elim (answer i) [
    | none ↦ tries left answer (suc i)
    | some reply ↦ bedrock_answer reply
  ]

  -- `answer i` is what comes on the ping with number `i`: none if it raises an OSError.
  unfoldable pub bedrock_players : (ℕ → Option (List ℕ)) → Players
  unfolding tries
  bedrock_players answer = tries 3 answer 0
