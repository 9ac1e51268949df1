-- ===== src/Digest/Groups.antt =====
-- `build`: the entries of the window, grouped by container and message, and the groups that repeat.
pub mod Summary
pub mod Laws
use mediahub_configs.Prelude.{
  ℕ, zero, suc, ◌+◌, min, max, Bool, true, false, not, ◌&&◌, ◌||◌, Option, none, some, List, [],
  ◌∷◌, ◌++◌, if◌then◌else◌, ltb, leb, length, take, any, keep_if,
}
use mediahub_configs.Prelude.Equality.{◌=?◌, list_eq, nat_eq, pair_eq}
use mediahub_configs.Prelude.Dict.{get, put}
use mediahub_configs.Digest.Fetch.{Entry}
use mediahub_configs.Digest.Discord.{is_empty}

-- What the regular expressions of the module do, and the day of a time in nanoseconds.
pub record Texts : Type 0 where
  -- `LOW_LEVEL.search`, `STRONG.search`, and a pattern of the list to ignore
  pub is_low_level : List ℕ → Bool
  pub is_strong : List ℕ → Bool
  pub is_ignored : List ℕ → Bool
  pub normalize : List ℕ → List ℕ
  pub strip_time : List ℕ → List ℕ
  -- `redact(ANSI.sub("", line).strip())`
  pub redact_plain : List ℕ → List ℕ
  pub day_of : ℕ → List ℕ

abbrev pub Key : Type 0
Key = List ℕ × List ℕ

-- `first` and `last` are in nanoseconds.
pub record Group : Type 0 where
  pub n : ℕ
  pub days : List (List ℕ)
  pub first : Option ℕ
  pub last : Option ℕ
  pub sample : List ℕ
  pub host : List ℕ
  pub variants : List (List ℕ)

abbrev pub min_count : ℕ
min_count = 20

abbrev pub min_days : ℕ
min_days = 3

abbrev pub max_variants : ℕ
max_variants = 5000

abbrev pub empty_group : Group
empty_group = record {
  n = 0;
  days = [];
  first = none;
  last = none;
  sample = [];
  host = [];
  variants = [];
}

-- `set.add`
unfoldable pub with_member : List ℕ → List (List ℕ) → List (List ℕ)
with_member x xs = if any (λ y. y =? x) xs then xs else xs ++ x ∷ []

abbrev pub earliest : Option ℕ → ℕ → Option ℕ
earliest none t = some t
earliest (some s) t = some (min s t)

abbrev pub last_of : Option ℕ → ℕ → Option ℕ
last_of none t = some t
last_of (some s) t = some (max s t)

abbrev pub group_or_new : Option Group → Group
group_or_new none = empty_group
group_or_new (some g) = g

module _ (texts : Texts) where
  -- The message under which an entry is counted, if it is not left out.
  unfoldable pub signature_of : Entry → Option (List ℕ)
  signature_of e =
      if texts.is_low_level (take 120 e.line) && not (texts.is_strong e.line)
      then none
      else let sig = texts.normalize e.line in
        if is_empty sig || texts.is_ignored (e.container ++ (58 ∷ 32 ∷ sig)) then none else some sig

  unfoldable pub with_entry : Entry → Group → Group
  unfolding with_member
  with_entry e g = record {
    n = g.n + 1;
    days = with_member (texts.day_of e.at_ns) g.days;
    first = earliest g.first e.at_ns;
    last = last_of g.last e.at_ns;
    host = e.host;
    sample = if is_empty g.sample then take 230 (texts.redact_plain e.line) else g.sample;
    variants =
        if ltb (length g.variants) max_variants
        then with_member (texts.strip_time e.line) g.variants
        else g.variants;
  }

  unfoldable pub count_entry : Entry → List (Key × Group) → List (Key × Group)
  unfolding with_entry signature_of
  count_entry e groups = elim (signature_of e) [
    | none ↦ groups
    | some sig ↦
        let key : Key = (e.container, sig) in
        put key (with_entry e (group_or_new (get key groups))) groups
  ]

  unfoldable pub grouped_from : List Entry → List (Key × Group) → List (Key × Group)
  unfolding count_entry
  grouped_from [] groups = groups
  grouped_from (e ∷ es) groups = grouped_from es (count_entry e groups)

-- Often, or on several days.
abbrev pub is_repeating : Group → Bool
is_repeating g = leb min_count g.n || (leb min_days (length g.days) && leb 5 g.n)

-- `rep`, of what was fetched.
unfoldable pub build : Texts → List Entry → List (Key × Group)
unfolding grouped_from
build texts es = keep_if (λ x. is_repeating x.1) (grouped_from texts es [])
