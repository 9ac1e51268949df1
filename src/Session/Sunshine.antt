-- ===== src/Session/Sunshine.antt =====
-- `sunshine`: the state in the answer of the streaming server.
use mediahub_configs.Prelude.{
  ℕ, ◌≡◌, refl, Option, none, some, List, [], ◌∷◌, ◌++◌, if◌then◌else◌, arith, ◌==◌, ◌≢◌, All,
  Bool-cases, inl, inr, ap, sym, ◌∙◌, ◌⊎◌, Option-cases,
}
use mediahub_configs.Prelude.Equality.{◌=?◌, list_eq, nat_eq}

pub data Sunshine : Type 0 where
  idle : Sunshine
  streaming : Sunshine
  unknown : Sunshine

-- "<state>", "</state>" and "SUNSHINE_SERVER_BUSY"
abbrev pub open_tag : List ℕ
open_tag = 60 ∷ 115 ∷ 116 ∷ 97 ∷ 116 ∷ 101 ∷ 62 ∷ []

abbrev pub close_tag : List ℕ
close_tag = 60 ∷ 47 ∷ 115 ∷ 116 ∷ 97 ∷ 116 ∷ 101 ∷ 62 ∷ []

abbrev pub server_busy : List ℕ
server_busy =
    83 ∷ 85 ∷ 78 ∷ 83 ∷ 72 ∷ 73 ∷ 78 ∷ 69 ∷ 95 ∷ 83 ∷ 69 ∷ 82 ∷ 86 ∷ 69 ∷ 82 ∷ 95 ∷ 66 ∷ 85 ∷ 83
    ∷ 89 ∷ []

-- What follows a prefix.
unfoldable pub after : List ℕ → List ℕ → Option (List ℕ)
after [] xs = some xs
after (p ∷ ps) [] = none
after (p ∷ ps) (x ∷ xs) = if p == x then after ps xs else none

-- `([^<]*)</state>`: as much as there is without "<", and then the tag.
unfoldable pub up_to_tag : List ℕ → Option (List ℕ)
unfolding after
up_to_tag [] = none
up_to_tag (x ∷ xs) =
    if x == 60
    then elim (after close_tag (x ∷ xs)) [ none ↦ none | some _ ↦ some [] ]
    else elim (up_to_tag xs) [ none ↦ none | some group ↦ some (x ∷ group) ]

-- `re.search`: the leftmost match.
unfoldable pub search_state : List ℕ → Option (List ℕ)
unfolding up_to_tag after
search_state [] = none
search_state (x ∷ xs) = elim (after open_tag (x ∷ xs)) [
  | none ↦ search_state xs
  | some rest ↦ elim (up_to_tag rest) [ none ↦ search_state xs | some group ↦ some group ]
]

-- The body, or none if the call raises an OSError.
unfoldable pub sunshine : Option (List ℕ) → Sunshine
unfolding search_state
sunshine none = idle
sunshine (some body) = elim (search_state body) [
  | none ↦ unknown
  | some state ↦ if state =? server_busy then streaming else idle
]

after-some : (p xs rest : List ℕ) → after p xs ≡ some rest → xs ≡ p ++ rest
unfolding after
after-some [] xs rest h = ground arith
after-some (p ∷ ps) [] rest h = cc
after-some (p ∷ ps) (x ∷ xs) rest h = ground (arith, after-some ps xs rest)

after-append : (p rest : List ℕ) → after p (p ++ rest) ≡ some rest
unfolding after
after-append [] rest = refl
after-append (p ∷ ps) rest = ground (arith, after-append ps rest)

up_to_tag-some :
    (xs group : List ℕ)
    → up_to_tag xs ≡ some group
    → All (λ c. c ≢ 60) group × ((post : List ℕ) × (xs ≡ group ++ (close_tag ++ post)))
unfolding up_to_tag
up_to_tag-some [] group h = cc
up_to_tag-some (x ∷ xs) group h = elim (Bool-cases (x == 60)) [
  | inl e ↦ elim (Option-cases (after close_tag (x ∷ xs))) [
    | inl q ↦ absurd (cc (rw (e, q, up_to_tag) at h))
    | inr (post, q) ↦
        let empty : [] ≡ group = ground (arith, h, e, q) in
        rw (sym empty) (tt, (post, after-some close_tag (x ∷ xs) post q))
  ]
  | inr e ↦ elim (Option-cases (up_to_tag xs)) [
    | inl q ↦ absurd (cc (rw (e, q, up_to_tag) at h))
    | inr (rest, q) ↦
        let longer : x ∷ rest ≡ group = ground (arith, h, e, q) in
        let (free, found) = up_to_tag-some xs rest q in
        let (post, split) = found in
        rw (sym longer) ((ground arith, free), (post, ap (λ l. x ∷ l) split))
  ]
]

up_to_tag-append :
    (group post : List ℕ)
    → All (λ c. c ≢ 60) group
    → up_to_tag (group ++ (close_tag ++ post)) ≡ some group
unfolding up_to_tag
up_to_tag-append [] post h = refl
up_to_tag-append (x ∷ xs) post h = ground (arith, h.0, up_to_tag-append xs post h.1)

-- A text with a state between its tags.
abbrev pub tagged : List ℕ → List ℕ → List ℕ
tagged group post = open_tag ++ (group ++ (close_tag ++ post))

pub record IsTagged (xs group : List ℕ) : Type 0 where
  pub before : List ℕ
  pub behind : List ℕ
  pub no_tag : All (λ c. c ≢ 60) group
  pub parts : xs ≡ before ++ tagged group behind

search_state-some : (xs group : List ℕ) → search_state xs ≡ some group → IsTagged xs group
unfolding search_state
search_state-some [] group h = cc
search_state-some (x ∷ xs) group h =
    let later : search_state xs ≡ some group → IsTagged (x ∷ xs) group = λ q.
      let t = search_state-some xs group q in
      record {
        before = x ∷ t.before;
        behind = t.behind;
        no_tag = t.no_tag;
        parts = ap (λ l. x ∷ l) t.parts;
      } in
    elim (Option-cases (after open_tag (x ∷ xs))) [
      | inl e ↦ later (rw (e, search_state) at h)
      | inr (rest, e) ↦ elim (Option-cases (up_to_tag rest)) [
        | inl q ↦ later (rw (e, q, search_state) at h)
        | inr (found, q) ↦
            let same : found ≡ group = ground (arith, h, e, q) in
            let (free, behind) = up_to_tag-some rest group (q ∙ ap some same) in
            let (post, split) = behind in
            record {
              before = [];
              behind = post;
              no_tag = free;
              parts = after-some open_tag (x ∷ xs) rest e ∙ ap (λ l. open_tag ++ l) split;
            }
      ]
    ]

search_state-tagged :
    (pre group post : List ℕ)
    → All (λ c. c ≢ 60) group
    → search_state (pre ++ tagged group post) ≢ none
unfolding search_state
search_state-tagged [] group post h e =
    let found = up_to_tag-append group post h in ground (arith, e, found)
search_state-tagged (x ∷ pre) group post h e =
    let rest = pre ++ tagged group post in
    let later = search_state-tagged pre group post h in
    elim (Option-cases (after open_tag (x ∷ rest))) [
      | inl q ↦ later (rw (q, search_state) at e)
      | inr (behind, q) ↦ elim (Option-cases (up_to_tag behind)) [
        | inl r ↦ later (rw (q, r, search_state) at e)
        | inr (found, r) ↦ cc (rw (q, r, search_state) at e)
      ]
    ]

-- An answer counts as unknown exactly if it has no text without "<" between the two tags; else such
-- a text decides, and a stream is seen only if it is the one of a busy server.
sunshine_lem :
    (body : List ℕ)
    → ((sunshine (some body) ≡ unknown) × ((group : List ℕ) → ¬ IsTagged body group))
      ⊎ ((group : List ℕ) × IsTagged body group
          × (sunshine (some body) ≡ (if group =? server_busy then streaming else idle)))
unfolding sunshine
sunshine_lem body = elim (Option-cases (search_state body)) [
  | inl e ↦ inl (
    rw (e, sunshine) refl,
    λ group t.
        search_state-tagged t.before group t.behind t.no_tag (sym (ap search_state t.parts) ∙ e),
  )
  | inr (group, e) ↦ inr (group, search_state-some body group e, rw (e, sunshine) refl)
]
