-- ===== src/Digest/Fetch.antt =====
-- `fetch_errors`: the lines of the window, a page of Loki's answers after the other.
pub mod Paging
pub mod Complete
use mediahub_configs.Prelude.{
  ℕ, zero, suc, ◌+◌, ◌-◌, ◌≤◌, ◌<◌, max, Option, none, some, List, [], ◌∷◌, ◌++◌, map,
  if◌then◌else◌, ltb, leb, length, concat, ◌||◌, Bool,
}

pub record Entry : Type 0 where
  pub container : List ℕ
  pub host : List ℕ
  pub at_ns : ℕ
  pub line : List ℕ

-- One stream of an answer: its labels, and its values with their times.
pub record Stream : Type 0 where
  pub container_label : Option (List ℕ)
  pub host_label : Option (List ℕ)
  pub values : List (ℕ × List ℕ)

-- `labels.get(key, "?")`
abbrev pub label_or : Option (List ℕ) → List ℕ
label_or none = 63 ∷ []
label_or (some label) = label

abbrev pub entry_of : Stream → ℕ × List ℕ → Entry
entry_of s (t, text) = record {
  container = label_or s.container_label;
  host = label_or s.host_label;
  at_ns = t;
  line = text;
}

unfoldable pub page_of : List Stream → List Entry
page_of streams = concat (map (λ s. map (entry_of s) s.values) streams)

abbrev pub page_limit : ℕ
page_limit = 5000

-- `last` after a page: the latest time, and not before `cur`.
unfoldable pub latest : ℕ → List Entry → ℕ
latest cur [] = cur
latest cur (e ∷ es) = max e.at_ns (latest cur es)

module _ (loki : ℕ → List Stream) (limit : ℕ) where
  -- None if the fuel is used up.
  unfoldable pub fetch_from : ℕ → ℕ → Option (List Entry)
  unfolding page_of latest
  fetch_from zero cur = none
  fetch_from (suc fuel) cur =
      let page = page_of (loki cur) in
      let last = latest cur page in
      if ltb (length page) limit || leb last cur
      then some page
      else elim (fetch_from fuel (last + 1)) [ none ↦ none | some more ↦ some (page ++ more) ]

-- A page that is not the last one ends later than it starts, and before the end of the window.
unfoldable pub fetch_errors : (ℕ → List Stream) → ℕ → ℕ → Option (List Entry)
unfolding fetch_from
fetch_errors loki start_ns end_ns = fetch_from loki page_limit (suc (end_ns - start_ns)) start_ns
