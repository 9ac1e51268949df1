-- ===== src/Digest/Groups/Summary.antt =====
-- What the group of some entries says of them.
use mediahub_configs.Prelude.{
  ℕ, ◌≤◌, ◌≡◌, ◌↔◌, refl, sym, subst, ◌∙◌, min, max, true, Option, none, some, List, [], ◌∷◌, ◌++◌,
  any, length, length-append, ◌∈◌, ◌⊎◌, All, All-map, All-append, arith, Bool-cases, inl, inr,
  mem_of_mem_append, mem-append_left, mem-append_right, any_of_mem, mem_of_any, ap,
}
use mathlib.Core.List.{append_assoc, append-nil}
use mediahub_configs.Prelude.Equality.{Eq, ◌=?◌, list_eq, nat_eq}
use mediahub_configs.Digest.Fetch.{Entry}
use mediahub_configs.Digest.Groups.{
  Texts, Group, with_member, with_entry, empty_group, earliest, last_of,
}
use mediahub_configs.Digest.Groups.Laws.{summed}

-- A set as a list: no member occurs again later.
abbrev pub IsSetOf : List (List ℕ) → Type 0
IsSetOf [] = Unit
IsSetOf (x ∷ xs) = (¬ (x ∈ xs)) × IsSetOf xs

IsSetOf-snoc : (xs : List (List ℕ)) (x : List ℕ) → IsSetOf xs → ¬ (x ∈ xs) → IsSetOf (xs ++ x ∷ [])
IsSetOf-snoc [] x h new = ((λ m. m), tt)
IsSetOf-snoc (y ∷ xs) x h new = (
  λ m. elim (mem_of_mem_append y xs (x ∷ []) m) [
    | inl old ↦ h.0 old
    | inr last ↦ elim last [ inl q ↦ new (inl (sym q)) | inr nowhere ↦ nowhere ]
  ],
  IsSetOf-snoc xs x h.1 (λ m. new (inr m)),
)

text_iff : (x y : List ℕ) → ((x =? y) ≡ true) ↔ (x ≡ y)
text_iff = let same : Eq (List ℕ) = list_eq in same.beq_iff

with_member-IsSetOf : (x : List ℕ) (xs : List (List ℕ)) → IsSetOf xs → IsSetOf (with_member x xs)
unfolding with_member
with_member-IsSetOf x xs h = elim (Bool-cases (any (λ y. y =? x) xs)) [
  | inl q ↦ rw (q, with_member) h
  | inr q ↦
      rw (q, with_member)
        (IsSetOf-snoc xs x h (λ m. cc (any_of_mem x (λ y. y =? x) xs m ((text_iff x x).1 refl), q)))
]

mem-with_member :
    (d x : List ℕ) (xs : List (List ℕ)) → (d ∈ with_member x xs) ↔ ((d ∈ xs) ⊎ (d ≡ x))
unfolding with_member
mem-with_member d x xs = elim (Bool-cases (any (λ y. y =? x) xs)) [
  | inl q ↦
      let (y, m, r) = mem_of_any (λ y. y =? x) xs q in
      let same : y ≡ x = (text_iff y x).0 r in
      rw (q, with_member)
        (λ k. inl k, λ s. elim s [ inl k ↦ k | inr e ↦ subst (λ z. z ∈ xs) (same ∙ sym e) m ])
  | inr q ↦
      rw (q, with_member)
        (
          λ k. elim (mem_of_mem_append d xs (x ∷ []) k) [
            | inl a ↦ inl a
            | inr b ↦ elim b [ inl e ↦ inr e | inr nowhere ↦ absurd nowhere ]
          ],
          λ s. elim s [
            | inl k ↦ mem-append_left d xs (x ∷ []) k
            | inr e ↦ mem-append_right d xs (x ∷ []) (inl e)
          ],
        )
]

abbrev pub IsBound : (ℕ → ℕ → Type 0) → Option ℕ → List Entry → Type 0
IsBound R none es = es ≡ []
IsBound R (some t) es = All (λ e. R t e.at_ns) es

earliest-IsBound :
    (first : Option ℕ) (e : Entry) (es : List Entry)
    → IsBound ◌≤◌ first es
    → IsBound ◌≤◌ (earliest first e.at_ns) (es ++ e ∷ [])
earliest-IsBound none e es h = rw h (omega arith, tt)
earliest-IsBound (some s) e es h =
    let both = min s e.at_ns in
    All-append (λ x. both ≤ x.at_ns) es (e ∷ [])
      (All-map (λ x. s ≤ x.at_ns) (λ x. both ≤ x.at_ns) (λ x l. omega arith) es h) (omega arith, tt)

last_of-IsBound :
    (last : Option ℕ) (e : Entry) (es : List Entry)
    → IsBound (λ t at. at ≤ t) last es
    → IsBound (λ t at. at ≤ t) (last_of last e.at_ns) (es ++ e ∷ [])
last_of-IsBound none e es h = rw h (omega arith, tt)
last_of-IsBound (some s) e es h =
    let both = max s e.at_ns in
    All-append (λ x. x.at_ns ≤ both) es (e ∷ [])
      (All-map (λ x. x.at_ns ≤ s) (λ x. x.at_ns ≤ both) (λ x l. omega arith) es h) (omega arith, tt)

module _ (texts : Texts) where
  -- The number of entries, their days, each once, and the first and the last time.
  pub record IsSummary (g : Group) (es : List Entry) : Type 0 where
    pub count : g.n ≡ length es
    pub each_day_once : IsSetOf g.days
    pub day_iff :
        (d : List ℕ) → (d ∈ g.days) ↔ ((e : Entry) × (e ∈ es) × (texts.day_of e.at_ns ≡ d))
    pub first_time : IsBound ◌≤◌ g.first es
    pub last_time : IsBound (λ t at. at ≤ t) g.last es

  with_entry-IsSummary :
      (e : Entry) (g : Group) (es : List Entry)
      → IsSummary g es
      → IsSummary (with_entry texts e g) (es ++ e ∷ [])
  unfolding with_entry
  with_entry-IsSummary e g es h = record {
    count = omega (arith, h.count, length-append es (e ∷ []));
    each_day_once = with_member-IsSetOf (texts.day_of e.at_ns) g.days h.each_day_once;
    day_iff = λ d.
        let (of_member, member_of) = mem-with_member d (texts.day_of e.at_ns) g.days in
        let (entry_of_day, day_of_entry) = h.day_iff d in
        (
          λ m. elim (of_member m) [
            | inl old ↦
                let (x, at, day) = entry_of_day old in (x, mem-append_left x es (e ∷ []) at, day)
            | inr new ↦ (e, mem-append_right e es (e ∷ []) (inl refl), sym new)
          ],
          λ (x, at, day). elim (mem_of_mem_append x es (e ∷ []) at) [
            | inl old ↦ member_of (inl (day_of_entry (x, old, day)))
            | inr new ↦ elim new [
              | inl same ↦ member_of (inr (sym day ∙ ap (λ y. texts.day_of y.at_ns) same))
              | inr nowhere ↦ absurd nowhere
            ]
          ],
        );
    first_time = earliest-IsBound g.first e es h.first_time;
    last_time = last_of-IsBound g.last e es h.last_time;
  }

  summed-IsSummary :
      (g : Group) (before es : List Entry)
      → IsSummary g before
      → (s : Group) × ((summed texts (some g) es ≡ some s) × IsSummary s (before ++ es))
  summed-IsSummary g before [] h = (g, (refl, rw (append-nil before) h))
  summed-IsSummary g before (e ∷ es) h =
      let (s, found) =
        summed-IsSummary (with_entry texts e g) (before ++ e ∷ []) es
          (with_entry-IsSummary e g before h) in
      (s, (found.0, subst (λ l. IsSummary s l) (append_assoc before (e ∷ []) es) found.1))

  empty_group-IsSummary : IsSummary empty_group []
  empty_group-IsSummary = record {
    count = refl;
    each_day_once = tt;
    day_iff = λ d. ((λ m. absurd m), λ (x, at, day). absurd at);
    first_time = refl;
    last_time = refl;
  }

  -- The group of one entry or more counts them and has each of their days once, and none of them is
  -- before its first time or after its last one.
  pub summed_lem :
      (e : Entry) (es : List Entry)
      → (s : Group) × ((summed texts none (e ∷ es) ≡ some s) × IsSummary s (e ∷ es))
  summed_lem e es =
      summed-IsSummary (with_entry texts e empty_group) (e ∷ []) es
        (with_entry-IsSummary e empty_group [] empty_group-IsSummary)
