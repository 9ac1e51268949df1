-- ===== src/LiveTv/Guide/Requests.antt =====
-- Each programme of the guide is made from the details of its own program.
use mediahub_configs.Prelude.{
  ℕ, zero, suc, ◌≤◌, ◌<◌, ◌≡◌, ◌⊎◌, ◌↔◌, refl, sym, ap, ap₂, subst, ◌∙◌, true, some, List, [], ◌∷◌,
  ◌++◌, length, any, map, concat, take, drop, take-append-drop, All, All-map, ◌∈◌, arith,
  Bool-cases, inl, inr, mem-append_left, mem-append_right, mem_of_any, mem_of_mem_append,
}
use mediahub_configs.Prelude.Equality.{Eq, ◌=?◌, list_eq, nat_eq}
use mediahub_configs.Prelude.Dict.{get, put, get-put}
use mediahub_configs.LiveTv.Stations.{station_map}
use mediahub_configs.LiveTv.Guide.{
  Program, Details, programme_of, schedules_of, with_id, with_ids, all_program_ids, chunks,
  chunks_of, with_answers, details_map, details_or_none, programmes_of, guide_of, generate,
}

text_iff : (x y : List ℕ) → ((x =? y) ≡ true) ↔ (x ≡ y)
text_iff = let same : Eq (List ℕ) = list_eq in same.beq_iff

length-take : {A : Type 0} (n : ℕ) (xs : List A) → length (take n xs) ≤ n
length-take zero xs = omega arith
length-take (suc n) [] = omega arith
length-take (suc n) (x ∷ xs) = omega (arith, length-take n xs)

length-drop :
    {A : Type 0} (n : ℕ) (x : A) (xs : List A) → length (drop (suc n) (x ∷ xs)) ≤ length xs
length-drop zero x xs = omega arith
length-drop (suc n) x [] = omega arith
length-drop (suc n) x (y ∷ xs) = omega (arith, length-drop n y xs)

chunks_lem :
    (fuel size : ℕ) (ids : List (List ℕ))
    → length ids ≤ fuel
    → (concat (chunks fuel (suc size) ids) ≡ ids)
      × All (λ chunk. (0 < length chunk) × (length chunk ≤ suc size)) (chunks fuel (suc size) ids)
unfolding chunks
chunks_lem zero size [] h = (refl, tt)
chunks_lem zero size (i ∷ ids) h = absurd (omega arith)
chunks_lem (suc fuel) size [] h = (refl, tt)
chunks_lem (suc fuel) size (i ∷ ids) h =
    let (whole, sizes) =
      chunks_lem fuel size (drop (suc size) (i ∷ ids)) (omega (arith, length-drop size i ids)) in
    (
      ap (λ l. i ∷ (take size ids ++ l)) whole ∙ take-append-drop (suc size) (i ∷ ids),
      ((omega arith, omega (arith, length-take size ids)), sizes),
    )

-- Each id is asked for in one request, and a request has one to five hundred of them.
chunks_of_lem :
    (ids : List (List ℕ))
    → (concat (chunks_of ids) ≡ ids)
      × All (λ chunk. (0 < length chunk) × (length chunk ≤ 500)) (chunks_of ids)
unfolding chunks_of
chunks_of_lem ids = chunks_lem (length ids) 499 ids (omega arith)

-- What is documented of `/programs`: the details of each id that is asked for.
abbrev pub Answers : (List (List ℕ) → List (List ℕ × Details)) → (List ℕ → Details) → Type 0
Answers api detail = (ids : List (List ℕ)) → api ids ≡ map (λ id. (id, detail id)) ids

module _ (detail : List ℕ → Details) where
  get-put_detail :
      (k id : List ℕ) (d : List (List ℕ × Details))
      → (id ≡ k) ⊎ (get k d ≡ some (detail k))
      → get k (put id (detail id) d) ≡ some (detail k)
  get-put_detail k id d h =
      let found = get-put id k (detail id) d in
      elim (Bool-cases (id =? k)) [
        | inl q ↦ found ∙ rw q (ap (λ i. some (detail i)) ((text_iff id k).0 q))
        | inr q ↦ elim h [ inl e ↦ cc ((text_iff id k).1 e, q) | inr e ↦ found ∙ rw q e ]
      ]

  with_answers-get :
      (k : List ℕ) (ids : List (List ℕ)) (d : List (List ℕ × Details))
      → (k ∈ ids) ⊎ (get k d ≡ some (detail k))
      → get k (with_answers (map (λ id. (id, detail id)) ids) d) ≡ some (detail k)
  unfolding with_answers
  with_answers-get k [] d (inl m) = absurd m
  with_answers-get k [] d (inr e) = e
  with_answers-get k (id ∷ ids) d (inl (inr m)) =
      with_answers-get k ids (put id (detail id) d) (inl m)
  with_answers-get k (id ∷ ids) d (inl (inl e)) =
      with_answers-get k ids (put id (detail id) d) (inr (get-put_detail k id d (inl (sym e))))
  with_answers-get k (id ∷ ids) d (inr e) =
      with_answers-get k ids (put id (detail id) d) (inr (get-put_detail k id d (inr e)))

  module _ (api : List (List ℕ) → List (List ℕ × Details)) (answers : Answers api detail) where
    details_map-get :
        (k : List ℕ) (parts : List (List (List ℕ))) (d : List (List ℕ × Details))
        → (k ∈ concat parts) ⊎ (get k d ≡ some (detail k))
        → get k (details_map api parts d) ≡ some (detail k)
    unfolding details_map
    details_map-get k [] d (inl m) = absurd m
    details_map-get k [] d (inr e) = e
    details_map-get k (ids ∷ parts) d h =
        let after : (k ∈ ids) ⊎ (get k d ≡ some (detail k))
            → get k (with_answers (api ids) d) ≡ some (detail k) =
          λ c. rw (answers ids) (with_answers-get k ids d c) in
        elim h [
          | inr e ↦ details_map-get k parts (with_answers (api ids) d) (inr (after (inr e)))
          | inl m ↦ elim (mem_of_mem_append k ids (concat parts) m) [
            | inl here ↦ details_map-get k parts (with_answers (api ids) d) (inr (after (inl here)))
            | inr later ↦ details_map-get k parts (with_answers (api ids) d) (inl later)
          ]
        ]

mem-with_id : (k id : List ℕ) (ids : List (List ℕ)) → k ∈ ids → k ∈ with_id id ids
unfolding with_id
mem-with_id k id ids m = elim (Bool-cases (any (λ i. i =? id) ids)) [
  | inl q ↦ rw (q, with_id) m
  | inr q ↦ rw (q, with_id) (mem-append_left k ids (id ∷ []) m)
]

with_id-mem : (id : List ℕ) (ids : List (List ℕ)) → id ∈ with_id id ids
unfolding with_id
with_id-mem id ids = elim (Bool-cases (any (λ i. i =? id) ids)) [
  | inl q ↦
      let (i, m, e) = mem_of_any (λ i. i =? id) ids q in
      rw (q, with_id) (subst (λ j. j ∈ ids) ((text_iff i id).0 e) m)
  | inr q ↦ rw (q, with_id) (mem-append_right id ids (id ∷ []) (inl refl))
]

mem-with_ids :
    (k : List ℕ) (programs : List Program) (ids : List (List ℕ))
    → k ∈ ids
    → k ∈ with_ids programs ids
unfolding with_ids
mem-with_ids k [] ids m = m
mem-with_ids k (p ∷ programs) ids m =
    mem-with_ids k programs (with_id p.program_id ids) (mem-with_id k p.program_id ids m)

with_ids-All :
    (programs : List Program) (ids : List (List ℕ))
    → All (λ p. p.program_id ∈ with_ids programs ids) programs
unfolding with_ids
with_ids-All [] ids = tt
with_ids-All (p ∷ programs) ids =
    let more = with_id p.program_id ids in
    (
      mem-with_ids p.program_id programs more (with_id-mem p.program_id ids),
      with_ids-All programs more,
    )

mem-all_program_ids :
    (k : List ℕ) (channels : List (List ℕ × List Program)) (ids : List (List ℕ))
    → k ∈ ids
    → k ∈ all_program_ids channels ids
unfolding all_program_ids
mem-all_program_ids k [] ids m = m
mem-all_program_ids k ((_, programs) ∷ channels) ids m =
    mem-all_program_ids k channels (with_ids programs ids) (mem-with_ids k programs ids m)

-- Each program of a channel is among the ids.
all_program_ids-All :
    (channels : List (List ℕ × List Program)) (ids : List (List ℕ))
    → All (λ c. All (λ p. p.program_id ∈ all_program_ids channels ids) c.1) channels
unfolding all_program_ids
all_program_ids-All [] ids = tt
all_program_ids-All ((_, programs) ∷ channels) ids =
    let found = with_ids programs ids in
    (
      All-map (λ p. p.program_id ∈ found) (λ p. p.program_id ∈ all_program_ids channels found)
          (λ p m. mem-all_program_ids p.program_id channels found m) programs
          (with_ids-All programs ids),
      all_program_ids-All channels found,
    )

programmes_of-same :
    (f g : List ℕ → Details) (tvg_id : List ℕ) (programs : List Program)
    → All (λ p. f p.program_id ≡ g p.program_id) programs
    → programmes_of f tvg_id programs ≡ programmes_of g tvg_id programs
unfolding programmes_of
programmes_of-same f g tvg_id [] h = refl
programmes_of-same f g tvg_id (p ∷ programs) h =
    ap₂ (λ d l. programme_of tvg_id p d ∷ l) h.0 (programmes_of-same f g tvg_id programs h.1)

guide_of-same :
    (f g : List ℕ → Details) (channels : List (List ℕ × List Program))
    → All (λ c. All (λ p. f p.program_id ≡ g p.program_id) c.1) channels
    → guide_of f channels ≡ guide_of g channels
unfolding guide_of
guide_of-same f g [] h = refl
guide_of-same f g ((tvg_id, []) ∷ channels) h = guide_of-same f g channels h.1
guide_of-same f g ((tvg_id, p ∷ programs) ∷ channels) h =
    ap₂ (λ here rest. (tvg_id ∷ rest.0, here ++ rest.1))
      (programmes_of-same f g tvg_id (p ∷ programs) h.0) (guide_of-same f g channels h.1)

-- If a request is answered with the details of each id in it, every programme of the guide has the
-- details of its own program, whatever channels share it and however the ids fall into requests.
pub generate_own :
    (schedules : List ℕ → List (List Program)) (api : List (List ℕ) → List (List ℕ × Details))
    (detail : List ℕ → Details)
    → Answers api detail
    → generate schedules api ≡ guide_of detail (schedules_of schedules station_map)
unfolding generate
generate_own schedules api detail answers =
    let channels = schedules_of schedules station_map in
    let ids = all_program_ids channels [] in
    let found = details_map api (chunks_of ids) [] in
    let known : (k : List ℕ) → k ∈ ids → details_or_none (get k found) ≡ detail k = λ k m.
      ap details_or_none (
        details_map-get detail api answers k (chunks_of ids) []
          (inl (subst (λ l. k ∈ l) (sym (chunks_of_lem ids).0) m))) in
    guide_of-same (λ id. details_or_none (get id found)) detail channels
      (All-map (λ c. All (λ p. p.program_id ∈ ids) c.1)
        (λ c. All (λ p. details_or_none (get p.program_id found) ≡ detail p.program_id) c.1)
        (λ c h.
          All-map (λ p. p.program_id ∈ ids)
            (λ p. details_or_none (get p.program_id found) ≡ detail p.program_id)
            (λ p m. known p.program_id m) c.1 h)
        channels (all_program_ids-All channels []))
