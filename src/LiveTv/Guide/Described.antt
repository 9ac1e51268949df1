-- ===== src/LiveTv/Guide/Described.antt =====
-- What the guide says of each program, from the schedules and the details alone.
use mediahub_configs.Prelude.{
  ℕ, ◌+◌, ◌<◌, ◌≡◌, ◌⊎◌, refl, sym, ap, subst, ◌∙◌, true, some, none, Option, List, [], ◌∷◌, ◌++◌,
  if◌then◌else◌, length, ltb, map, concat, inl, inr, arith,
}
use mediahub_configs.Prelude.Codes.{codes}
use mediahub_configs.LiveTv.Stations.{station_map}
use mediahub_configs.LiveTv.Guide.{
  Program, Details, Programme, base_title, full_title, description, programme_of, schedules_of,
  programmes_of, guide_of, generate,
}
use mediahub_configs.LiveTv.Guide.Requests.{Answers, generate_own}

-- The title without the episode's: the first of the details, or "Unknown".
abbrev IsBase : List (Option (List ℕ)) → List ℕ → Type 0
IsBase titles base =
    ((t : List ℕ) × (more : List (Option (List ℕ))) × (titles ≡ some t ∷ more) × (base ≡ t))
    ⊎ (((titles ≡ []) ⊎ ((more : List (Option (List ℕ))) × (titles ≡ none ∷ more)))
        × (base ≡ codes "Unknown"))

abbrev IsTitle : (base episode_title title : List ℕ) → Type 0
IsTitle base episode_title title =
    ((episode_title ≡ []) × (title ≡ base))
    ⊎ ((0 < length episode_title) × (title ≡ base ++ codes ": " ++ episode_title))

-- The first long description, without one the first short one, without either the empty text.
abbrev IsDescription : (longs shorts : List (List ℕ)) → List ℕ → Type 0
IsDescription longs shorts desc =
    ((t : List ℕ) × (more : List (List ℕ)) × (longs ≡ t ∷ more) × (desc ≡ t))
    ⊎ ((longs ≡ [])
        × (((t : List ℕ) × (more : List (List ℕ)) × (shorts ≡ t ∷ more) × (desc ≡ t))
            ⊎ ((shorts ≡ []) × (desc ≡ []))))

-- The programme `q` is that of a program of the channel `tvg_id` with the details `d`.
pub record IsProgrammeOf (tvg_id : List ℕ) (p : Program) (d : Details) (q : Programme)
    : Type 0 where
  pub channel : q.channel ≡ tvg_id
  pub start : q.start ≡ p.air_time
  pub stop : q.stop ≡ p.air_time + p.duration
  pub base : List ℕ
  pub is_base : IsBase d.titles base
  pub title : IsTitle base d.episode_title q.title
  pub sub_title : q.sub_title ≡ d.episode_title
  pub desc : IsDescription d.description1000 d.description100 q.desc

-- The programs of all channels, each with its channel, in order.
pub entries : (List ℕ → List (List Program)) → List (List ℕ × List ℕ) → List (List ℕ × Program)
entries schedules [] = []
entries schedules ((tvg_id, station) ∷ stations) =
    map (λ p. (tvg_id, p)) (concat (schedules station)) ++ entries schedules stations

-- The channels that have a program, in order.
pub shown : (List ℕ → List (List Program)) → List (List ℕ × List ℕ) → List (List ℕ)
shown schedules [] = []
shown schedules ((tvg_id, station) ∷ stations) =
    let rest = shown schedules stations in
    if ltb 0 (length (concat (schedules station))) then tvg_id ∷ rest else rest

module _ (detail : List ℕ → Details) where
  -- The programmes are those of the programs, one by one.
  pub AreProgrammesOf : List (List ℕ × Program) → List Programme → Type 0
  AreProgrammesOf [] [] = Unit
  AreProgrammesOf [] (q ∷ qs) = ⊥
  AreProgrammesOf (x ∷ xs) [] = ⊥
  AreProgrammesOf (x ∷ xs) (q ∷ qs) =
      IsProgrammeOf x.0 x.1 (detail x.1.program_id) q × AreProgrammesOf xs qs

base_title-IsBase : (titles : List (Option (List ℕ))) → IsBase titles (base_title titles)
base_title-IsBase [] = inr (inl refl, refl)
base_title-IsBase (none ∷ titles) = inr (inr (titles, refl), refl)
base_title-IsBase (some title ∷ titles) = inl (title, titles, refl, refl)

full_title-IsTitle : (base title : List ℕ) → IsTitle base title (full_title base title)
full_title-IsTitle base [] = inl (refl, refl)
full_title-IsTitle base (c ∷ title) = inr (omega arith, refl)

description-IsDescription :
    (longs shorts : List (List ℕ)) → IsDescription longs shorts (description longs shorts)
description-IsDescription (t ∷ longs) shorts = inl (t, longs, refl, refl)
description-IsDescription [] (t ∷ shorts) = inr (refl, inl (t, shorts, refl, refl))
description-IsDescription [] [] = inr (refl, inr (refl, refl))

programme_of-IsProgrammeOf :
    (tvg_id : List ℕ) (p : Program) (d : Details)
    → IsProgrammeOf tvg_id p d (programme_of tvg_id p d)
unfolding programme_of
programme_of-IsProgrammeOf tvg_id p d = record {
  channel = refl;
  start = refl;
  stop = refl;
  base = base_title d.titles;
  is_base = base_title-IsBase d.titles;
  title = full_title-IsTitle (base_title d.titles) d.episode_title;
  sub_title = refl;
  desc = description-IsDescription d.description1000 d.description100;
}

module _ (detail : List ℕ → Details) where
  programmes_of-AreProgrammesOf :
      (tvg_id : List ℕ) (ps : List Program) (xs : List (List ℕ × Program)) (qs : List Programme)
      → AreProgrammesOf detail xs qs
      → AreProgrammesOf detail
          (map (λ p. (tvg_id, p)) ps ++ xs)
          (programmes_of detail tvg_id ps ++ qs)
  unfolding AreProgrammesOf programmes_of
  programmes_of-AreProgrammesOf tvg_id [] xs qs h = h
  programmes_of-AreProgrammesOf tvg_id (p ∷ ps) xs qs h = (
    programme_of-IsProgrammeOf tvg_id p (detail p.program_id),
    programmes_of-AreProgrammesOf tvg_id ps xs qs h,
  )

  -- One more channel, whose programs are `ps`.
  guide_of-cons :
      (tvg_id : List ℕ) (ps : List Program) (channels : List (List ℕ × List Program))
      → guide_of detail ((tvg_id, ps) ∷ channels) ≡ (
        (if ltb 0 (length ps)
            then tvg_id ∷ (guide_of detail channels).0
            else (guide_of detail channels).0),
        programmes_of detail tvg_id ps ++ (guide_of detail channels).1,
      )
  unfolding guide_of programmes_of
  guide_of-cons tvg_id [] channels = refl
  guide_of-cons tvg_id (p ∷ ps) channels =
      let some_program : ltb 0 (length (p ∷ ps)) ≡ true = ground arith in rw some_program refl

  guide_of-described :
      (schedules : List ℕ → List (List Program)) (stations : List (List ℕ × List ℕ))
      → ((guide_of detail (schedules_of schedules stations)).0 ≡ shown schedules stations)
        × AreProgrammesOf detail
            (entries schedules stations)
            (guide_of detail (schedules_of schedules stations)).1
  unfolding guide_of schedules_of entries shown AreProgrammesOf
  guide_of-described schedules [] = (refl, tt)
  guide_of-described schedules ((tvg_id, station) ∷ stations) =
      let ps = concat (schedules station) in
      let channels = schedules_of schedules stations in
      let (names, rest) = guide_of-described schedules stations in
      let cons = guide_of-cons tvg_id ps channels in
      (
        ap (λ g. g.0) cons ∙ ap (λ l. if ltb 0 (length ps) then tvg_id ∷ l else l) names,
        subst
            (λ g.
              AreProgrammesOf detail (map (λ p. (tvg_id, p)) ps ++ entries schedules stations) g.1)
            (sym cons)
            (programmes_of-AreProgrammesOf tvg_id ps (entries schedules stations)
              (guide_of detail channels).1 rest),
      )

-- If a request to `/programs` is answered with the details of each id in it, the guide has the
-- channels of the station map that have a program, and one programme for each program of each of
-- them, in the order of the schedules. Its channel, its start and its stop are those of the program.
-- Its title is the first title of the details of this program, or "Unknown", followed by the title of
-- the episode if there is one, which is also the sub-title; its description is the first long one, or
-- else the first short one.
pub generate-AreProgrammesOf :
    (schedules : List ℕ → List (List Program)) (api : List (List ℕ) → List (List ℕ × Details))
    (detail : List ℕ → Details)
    → Answers api detail
    → ((generate schedules api).0 ≡ shown schedules station_map)
      × AreProgrammesOf detail (entries schedules station_map) (generate schedules api).1
generate-AreProgrammesOf schedules api detail answers =
    subst
      (λ g.
        (g.0 ≡ shown schedules station_map)
        × AreProgrammesOf detail (entries schedules station_map) g.1)
      (sym (generate_own schedules api detail answers))
      (guide_of-described detail schedules station_map)
