-- ===== src/Digest/Groups/Laws.antt =====
-- The groups that `build` keeps, told from the entries of each key.
use mediahub_configs.Prelude.{
  ◌≡◌, refl, sym, ap, ◌∙◌, ◌↔◌, Bool, true, false, Option, none, some, List, [], ◌∷◌, keep_if,
  keep_if-kept, keep_if-dropped, if◌then◌else◌, Bool-cases, Option-cases, inl, inr,
}
use mediahub_configs.Prelude.Equality.{Eq, ◌=?◌, list_eq, nat_eq, pair_eq}
use mediahub_configs.Prelude.Dict.{get, get-put, HasDistinctKeys, put-HasDistinctKeys, get-keep_if}
use mediahub_configs.Digest.Fetch.{Entry}
use mediahub_configs.Digest.Groups.{
  Texts, Key, Group, signature_of, with_entry, group_or_new, count_entry, grouped_from, build,
  is_repeating,
}

-- The group of some entries, added to one that is there.
abbrev pub summed : Texts → Option Group → List Entry → Option Group
summed texts g [] = g
summed texts g (e ∷ es) = summed texts (some (with_entry texts e (group_or_new g))) es

abbrev pub is_under : Texts → Key → Entry → Bool
is_under texts k e = elim (signature_of texts e) [
  | none ↦ false
  | some sig ↦ (e.container, sig) =? k
]

-- The entries of a key, in the order in which they were fetched.
abbrev pub entries_of : Texts → Key → List Entry → List Entry
entries_of texts k es = keep_if (is_under texts k) es

key_iff : (j k : Key) → ((j =? k) ≡ true) ↔ (j ≡ k)
key_iff = let same : Eq Key = pair_eq in same.beq_iff

module _ (texts : Texts) where
  count_entry-HasDistinctKeys :
      (e : Entry) (groups : List (Key × Group))
      → HasDistinctKeys groups
      → HasDistinctKeys (count_entry texts e groups)
  unfolding count_entry
  count_entry-HasDistinctKeys e groups h = elim (Option-cases (signature_of texts e)) [
    | inl q ↦ rw (q, count_entry) h
    | inr (sig, q) ↦ rw (q, count_entry) (put-HasDistinctKeys _ _ groups h)
  ]

  grouped_from-HasDistinctKeys :
      (es : List Entry) (groups : List (Key × Group))
      → HasDistinctKeys groups
      → HasDistinctKeys (grouped_from texts es groups)
  unfolding grouped_from
  grouped_from-HasDistinctKeys [] groups h = h
  grouped_from-HasDistinctKeys (e ∷ es) groups h =
      grouped_from-HasDistinctKeys es (count_entry texts e groups)
        (count_entry-HasDistinctKeys e groups h)

  get-count_entry :
      (k : Key) (e : Entry) (groups : List (Key × Group))
      → get k (count_entry texts e groups) ≡ (
          if is_under texts k e
          then some (with_entry texts e (group_or_new (get k groups)))
          else get k groups)
  unfolding count_entry
  get-count_entry k e groups = elim (Option-cases (signature_of texts e)) [
    | inl q ↦
        let under : is_under texts k e ≡ false = rw (q, is_under) refl in
        rw (under, q, count_entry) refl
    | inr (sig, q) ↦
        let key : Key = (e.container, sig) in
        let found = with_entry texts e (group_or_new (get key groups)) in
        let under : is_under texts k e ≡ (key =? k) = rw (q, is_under) refl in
        let written : get k (count_entry texts e groups)
            ≡ (if key =? k then some found else get k groups) =
          rw (q, count_entry) (get-put key k found groups) in
        elim (Bool-cases (key =? k)) [
          | inl r ↦
              let same : key ≡ k = (key_iff key k).0 r in
              let found_k = with_entry texts e (group_or_new (get k groups)) in
              let as_k : found ≡ found_k =
                ap (λ j. with_entry texts e (group_or_new (get j groups))) same in
              written
              ∙ (rw r (ap some as_k)
                  ∙ sym (ap (λ c. if c then some found_k else get k groups) (under ∙ r)))
          | inr r ↦
              let found_k = with_entry texts e (group_or_new (get k groups)) in
              written
              ∙ (rw r refl ∙ sym (ap (λ c. if c then some found_k else get k groups) (under ∙ r)))
        ]
  ]

  get-grouped_from :
      (k : Key) (es : List Entry) (groups : List (Key × Group))
      → get k (grouped_from texts es groups) ≡ summed texts (get k groups) (entries_of texts k es)
  unfolding grouped_from
  get-grouped_from k [] groups = refl
  get-grouped_from k (e ∷ es) groups =
      let ih = get-grouped_from k es (count_entry texts e groups) in
      let step = get-count_entry k e groups in
      let rest = entries_of texts k es in
      let old = get k groups in
      let chosen : Bool → Option Group =
        λ c. if c then some (with_entry texts e (group_or_new old)) else old in
      elim (Bool-cases (is_under texts k e)) [
        | inl q ↦
            ih
            ∙ (ap (λ g. summed texts g rest) (step ∙ ap chosen q)
                ∙ sym (ap (summed texts old) (keep_if-kept (is_under texts k) e es q)))
        | inr q ↦
            ih
            ∙ (ap (λ g. summed texts g rest) (step ∙ ap chosen q)
                ∙ sym (ap (summed texts old) (keep_if-dropped (is_under texts k) e es q)))
      ]

-- A key is reported exactly if the group of all its entries repeats, and with that group.
pub get-build :
    (texts : Texts) (k : Key) (es : List Entry)
    → get k (build texts es) ≡ elim (summed texts none (entries_of texts k es)) [
      | none ↦ none
      | some g ↦ if is_repeating g then some g else none
    ]
unfolding build get
get-build texts k es =
    let distinct = grouped_from-HasDistinctKeys texts es [] tt in
    get-keep_if is_repeating k (grouped_from texts es []) distinct
    ∙ ap (λ o. elim o [ none ↦ none | some g ↦ if is_repeating g then some g else none ])
        (get-grouped_from texts k es [])
