-- ===== src/Digest/Compose.antt =====
-- `compose`: what is new, what is still there and what is gone, against the state of the last digest,
-- and the lines that say so.
pub mod Weeks
use mediahub_configs.Prelude.{
  ℕ, zero, suc, ◌+◌, ◌-◌, ◌*◌, Bool, true, false, not, ◌&&◌, Option, none, some, List, [], ◌∷◌,
  ◌++◌, map, if◌then◌else◌, ltb, leb, length, take, drop, any, keep_if, concat,
}
use mediahub_configs.Prelude.Equality.{◌=?◌, list_eq, nat_eq, pair_eq}
use mediahub_configs.Prelude.Dict.{get, put}
use mediahub_configs.Prelude.Text.{before_first}
use mediahub_configs.Digest.Groups.{Key, Group, empty_group}

-- What the state file keeps of a signature; `first_digest` is the end of the window that first had it.
pub record Seen : Type 0 where
  pub sig : List ℕ
  pub first_digest : ℕ

-- `f"{c}|{sig}"`
abbrev pub sigid : Key → List ℕ
sigid (c, sig) = c ++ (124 ∷ sig)

abbrev pub is_present {ℓ} : {A : Type ℓ} → Option A → Bool
is_present none = false
is_present (some x) = true

abbrev pub keys_of : List (Key × Group) → List Key
keys_of rep = map (λ x. x.0) rep

unfoldable pub new_keys : List (Key × Group) → List (List ℕ × Seen) → List Key
new_keys rep prev = keep_if (λ k. not (is_present (get (sigid k) prev))) (keys_of rep)

unfoldable pub still_keys : List (Key × Group) → List (List ℕ × Seen) → List Key
still_keys rep prev = keep_if (λ k. is_present (get (sigid k) prev)) (keys_of rep)

-- `i.split("|", 1)[0]` is the container of an id: the containers and signatures of the last digest that no longer repeat.
unfoldable pub gone_from : List (List ℕ × Seen) → List (Key × Group) → List (List ℕ × List ℕ)
unfolding before_first
gone_from prev rep =
    map (λ x. (before_first 124 x.0, x.1.sig))
      (keep_if (λ x. not (any (λ k. sigid k =? x.0) (keys_of rep))) prev)

abbrev pub first_digest_or : ℕ → Option Seen → ℕ
first_digest_or end none = end
first_digest_or end (some seen) = seen.first_digest

-- `state["signatures"]` after a digest, key by key.
unfoldable pub signatures_from :
    ℕ → List (List ℕ × Seen) → List Key → List (List ℕ × Seen) → List (List ℕ × Seen)
signatures_from end prev [] state = state
signatures_from end prev (k ∷ ks) state =
    let seen : Seen = record {
      sig = k.1;
      first_digest = first_digest_or end (get (sigid k) prev);
    } in
    signatures_from end prev ks (put (sigid k) seen state)

unfoldable pub next_signatures :
    ℕ → List (Key × Group) → List (List ℕ × Seen) → List (List ℕ × Seen)
unfolding signatures_from
next_signatures end rep prev = signatures_from end prev (keys_of rep) []

-- `rep[k]` of a key that is in it.
abbrev pub group_of : List (Key × Group) → Key → Group
group_of rep k = elim (get k rep) [ none ↦ empty_group | some g ↦ g ]

-- `sorted(xs, key=lambda x: -key(x))`, which is stable: read from the end, each goes in front of the
-- first that is not larger.
module _ {A : Type 0} (key : A → ℕ) where
  pub insert_down : A → List A → List A
  insert_down x [] = x ∷ []
  insert_down x (y ∷ ys) = if leb (key y) (key x) then x ∷ y ∷ ys else y ∷ insert_down x ys

  unfoldable pub sorted_down : List A → List A
  unfolding insert_down
  sorted_down [] = []
  sorted_down (x ∷ xs) = insert_down x (sorted_down xs)

-- `d[k[0]].append(k)`
unfoldable pub by_name : List Key → List (List ℕ × List Key) → List (List ℕ × List Key)
by_name [] d = d
by_name (k ∷ ks) d =
    by_name ks
      (elim (get k.0 d) [ none ↦ put k.0 (k ∷ []) d | some old ↦ put k.0 (old ++ k ∷ []) d ])

abbrev pub total : List (Key × Group) → List Key → ℕ
total rep [] = 0
total rep (k ∷ ks) = (group_of rep k).n + total rep ks

unfoldable pub by_container : List (Key × Group) → List Key → List (List ℕ × List Key)
unfolding by_name sorted_down
by_container rep ks = sorted_down (λ x. total rep x.1) (by_name ks [])

pub data Title : Type 0 where
  new_this_week still_broken : Title

-- The lines of a digest, before they are written out: an item has the container, the group of its
-- most frequent key, the key's signature cut to 160, whether it goes on, and the number of other keys.
pub data Line : Type 0 where
  headline : (end : ℕ) → Line
  first_ever : Line
  title : Title → Line
  item : (container sig : List ℕ) (g : Group) (still_going : Bool) (others : ℕ) → Line
  more_containers : ℕ → Line
  gone_title : Line
  gone : (container sig : List ℕ) → Line
  all_quiet : Line

-- Six hours, in nanoseconds as the times of a group.
abbrev pub six_hours : ℕ
six_hours = 21600000000000

abbrev pub went_on : ℕ → Option ℕ → Bool
went_on end none = false
went_on end (some last) = ltb end (last + six_hours)

module _ (end : ℕ) (rep : List (Key × Group)) where
  unfoldable pub item_line : List ℕ × List Key → List Line
  unfolding sorted_down
  item_line (c, ks) = elim (sorted_down (λ k. (group_of rep k).n) ks) [
    | [] ↦ []
    | k ∷ rest ↦
        let g = group_of rep k in item c (take 160 k.1) g (went_on end g.last) (length rest) ∷ []
  ]

  unfoldable pub section : Title → List Key → ℕ → List Line
  unfolding item_line by_container
  section t [] cap = []
  section t (k ∷ ks) cap =
      let groups = by_container rep (k ∷ ks) in
      let items = concat (map item_line (take cap groups)) in
      let over =
        if ltb cap (length groups) then more_containers (length groups - cap) ∷ [] else [] in
      title t ∷ (items ++ over)

abbrev lost_lines : List (List ℕ × List ℕ) → List Line
lost_lines [] = []
lost_lines (x ∷ xs) = gone_title ∷ map (λ y. gone y.0 (take 110 y.1)) (take 6 (x ∷ xs))

abbrev quiet_lines : List Key → List Key → List (List ℕ × List ℕ) → List Line
quiet_lines [] [] [] = all_quiet ∷ []
quiet_lines [] [] (x ∷ xs) = []
quiet_lines [] (k ∷ ks) gone_ones = []
quiet_lines (k ∷ ks) still gone_ones = []

-- The lines; the text is those, written out, with line ends between them.
unfoldable pub compose : ℕ → List (Key × Group) → List (List ℕ × Seen) → Bool → List Line
unfolding new_keys still_keys gone_from section
compose end rep prev first_run =
    let new = new_keys rep prev in
    let still = still_keys rep prev in
    let gone_ones = gone_from prev rep in
    let start = headline end ∷ (if first_run then first_ever ∷ [] else []) in
    start
    ++ section end rep new_this_week new 10
    ++ section end rep still_broken still 8
    ++ lost_lines gone_ones
    ++ quiet_lines new still gone_ones
