-- ===== src/Lidarr/Scheduler/Laws.antt =====
-- Which albums the scheduler takes, and that it does not report the same ones again.
use mediahub_configs.Prelude.{
  ℕ, zero, suc, ◌≤◌, ◌<◌, ◌≡◌, refl, sym, ap, subst, Bool, true, false, not, none, List, [], ◌∷◌,
  inl, inr, length, keep_if, map, take, drop, ltb, ◌==◌, ◌∈◌, arith, Bool-cases, mem-keep_if,
  keep_if-mem, mem-append_left, take-append-drop, any_of_mem, ==_iff,
}
use mediahub_configs.Lidarr.Scheduler.{
  Album, Config, Answers, Outcome, contains, is_new, is_fresh, fresh_first, chosen_albums, unique,
  album_id, scheduled_check, outcome_for, outcome_of,
}

mem-take : (x : Album) (n : ℕ) (xs : List Album) → x ∈ take n xs → x ∈ xs
mem-take x n xs m = subst (λ l. x ∈ l) (take-append-drop n xs) (mem-append_left x _ (drop n xs) m)

length-take_le : (n : ℕ) (xs : List Album) → length (take n xs) ≤ n
length-take_le zero xs = omega arith
length-take_le (suc n) [] = omega arith
length-take_le (suc n) (x ∷ xs) = omega (arith, length-take_le n xs)

fresh_first-mem :
    (fresh xs : List Album) (x : Album)
    → ((y : Album) → y ∈ fresh → y ∈ xs)
    → x ∈ fresh_first fresh xs
    → x ∈ xs
fresh_first-mem [] xs x sub m = m
fresh_first-mem (y ∷ fresh) xs x sub m = sub x m

length-map : (xs : List Album) → length (map album_id xs) ≡ length xs
length-map [] = refl
length-map (x ∷ xs) = omega (arith, length-map xs)

mem-map : (id : ℕ) (xs : List Album) → id ∈ map album_id xs → (x : Album) × (x ∈ xs) × (x.id ≡ id)
mem-map id [] m = absurd m
mem-map id (x ∷ xs) (inl p) = (x, inl refl, sym p)
mem-map id (x ∷ xs) (inr m) = let (y, n, p) = mem-map id xs m in (y, inr n, p)

outcome_for-mem :
    (config : Config) (albums : List Album) (last : List ℕ) (id : ℕ)
    → id ∈ (outcome_for config albums last).enqueued
    → id ∈ map album_id albums
outcome_for-mem config [] last id m = absurd m
outcome_for-mem config (a ∷ rest) last id m = elim (Bool-cases config.scheduler_auto_download) [
  | inl e ↦ rw e at m
  | inr e ↦ absurd (rw e at m)
]

length-outcome_for :
    (config : Config) (albums : List Album) (last : List ℕ)
    → length (outcome_for config albums last).enqueued ≤ length albums
length-outcome_for config [] last = omega arith
length-outcome_for config (a ∷ rest) last = elim (Bool-cases config.scheduler_auto_download) [
  | inl e ↦ rw e (omega (arith, length-map (a ∷ rest)))
  | inr e ↦ rw e (omega arith)
]

module _ (config : Config) (answers : Answers) (now : ℕ) where
  abbrev new_albums : List Album
  new_albums = keep_if (is_new config answers now) answers.missing_albums

  abbrev fresh_albums : List Album
  fresh_albums = keep_if (is_fresh answers) new_albums

  chosen_albums-mem :
      (x : Album) → x ∈ chosen_albums config answers now → x ∈ fresh_first fresh_albums new_albums
  unfolding chosen_albums
  chosen_albums-mem x m = elim (Bool-cases (ltb 0 config.scheduler_max_albums)) [
    | inl e ↦ mem-take x config.scheduler_max_albums _ (rw e at m)
    | inr e ↦ rw e at m
  ]

  -- An album that is chosen is a missing one, neither queued, nor recently in the history, nor
  -- attempted within the cooldown, nor being downloaded.
  chosen_albums-is_new :
      (x : Album)
      → x ∈ chosen_albums config answers now
      → (x ∈ answers.missing_albums) × (is_new config answers now x ≡ true)
  chosen_albums-is_new x m = mem-keep_if x (is_new config answers now) answers.missing_albums (
      fresh_first-mem fresh_albums new_albums x
        (λ y n. (mem-keep_if y (is_fresh answers) new_albums n).0) (chosen_albums-mem x m))

  -- If some new album was never attempted, then so is each that is chosen.
  chosen_albums-is_fresh :
      (x y : Album)
      → y ∈ fresh_albums
      → x ∈ chosen_albums config answers now
      → is_fresh answers x ≡ true
  chosen_albums-is_fresh x y n m = of_fresh fresh_albums refl n (chosen_albums-mem x m)
    where
      of_fresh :
          (fresh : List Album)
          → fresh_albums ≡ fresh
          → y ∈ fresh
          → x ∈ fresh_first fresh new_albums
          → is_fresh answers x ≡ true
      of_fresh [] p n m = absurd n
      of_fresh (z ∷ fresh) p n m =
          (mem-keep_if x (is_fresh answers) new_albums (subst (λ l. x ∈ l) (sym p) m)).1

  length-chosen_albums :
      0 < config.scheduler_max_albums
      → length (chosen_albums config answers now) ≤ config.scheduler_max_albums
  unfolding chosen_albums
  length-chosen_albums h =
      ground
        (arith, length-take_le config.scheduler_max_albums (fresh_first fresh_albums new_albums))

  module _ (last : List ℕ) where
    abbrev outcome : Outcome
    outcome = scheduled_check config answers now last

    enqueued-chosen :
        (id : ℕ) → id ∈ outcome.enqueued → id ∈ map album_id (chosen_albums config answers now)
    unfolding scheduled_check
    enqueued-chosen id m = elim (Bool-cases answers.is_downloading) [
      | inl e ↦ absurd (rw e at m)
      | inr e ↦ outcome_for-mem config _ last id (rw e at m)
    ]

    -- Each album that the scheduler queues is a missing one that is not queued yet, is not in the
    -- recent history, has not been attempted within the cooldown, is not being downloaded and
    -- lacks a track; if there is such an album that has never been attempted, neither has the
    -- queued one; and there are at most `scheduler_max_albums`, if that is set.
    pub scheduled_check-queues :
        ((id : ℕ)
          → id ∈ outcome.enqueued
          → (x : Album) × (x ∈ answers.missing_albums)
            × (x.id ≡ id)
            × (is_new config answers now x ≡ true)
            × ((y : Album)
                → y ∈ answers.missing_albums
                → is_new config answers now y ≡ true
                → is_fresh answers y ≡ true
                → is_fresh answers x ≡ true))
        × (0 < config.scheduler_max_albums → length outcome.enqueued ≤ config.scheduler_max_albums)
    unfolding scheduled_check
    scheduled_check-queues = (
      λ id m.
          let (x, n, p) = mem-map id _ (enqueued-chosen id m) in
          let (a, b) = chosen_albums-is_new x n in
          (
            x,
            a,
            p,
            b,
            λ y missing new fresh.
                chosen_albums-is_fresh x y
                  (keep_if-mem y (is_fresh answers) new_albums
                    (keep_if-mem y (is_new config answers now) answers.missing_albums missing new)
                    fresh)
                  n,
          ),
      λ h. ground (
        arith,
        length-chosen_albums h,
        length-outcome_for config (chosen_albums config answers now) last,
      ),
    )

keep_if-none : (p : ℕ → Bool) (xs : List ℕ) → ((x : ℕ) → x ∈ xs → p x ≡ false) → keep_if p xs ≡ []
keep_if-none p [] h = refl
keep_if-none p (x ∷ xs) h = rw (h x (inl refl), keep_if) (keep_if-none p xs (λ y m. h y (inr m)))

none_unseen : (ids : List ℕ) → keep_if (λ id. not (contains id ids)) ids ≡ []
none_unseen ids =
    keep_if-none (λ id. not (contains id ids)) ids
      (λ x m.
        let seen : contains x ids ≡ true = any_of_mem x (λ i. i == x) ids m ((==_iff x x).1 refl) in
        ap not seen)

abbrev ids_of : List Album → List ℕ
ids_of albums = unique (map album_id albums)

outcome_of-reported :
    (config : Config) (albums : List Album) (last : List ℕ)
    → config.scheduler_auto_download ≡ false
    → (outcome_of config albums last).last_reported_ids ≡ ids_of albums
outcome_of-reported config albums last h = rw h refl

outcome_of-seen :
    (config : Config) (albums : List Album)
    → config.scheduler_auto_download ≡ false
    → ((outcome_of config albums (ids_of albums)).notice ≡ none)
      × ((outcome_of config albums (ids_of albums)).enqueued ≡ [])
outcome_of-seen config albums h = rw (h, none_unseen (ids_of albums)) (refl, refl)

-- The second report of the same albums.
outcome_for_again :
    (config : Config) (albums : List Album) (last : List ℕ)
    → config.scheduler_auto_download ≡ false
    → let again = outcome_for config albums (outcome_for config albums last).last_reported_ids in
      (again.notice ≡ none) × (again.enqueued ≡ [])
outcome_for_again config [] last h = (refl, refl)
outcome_for_again config (a ∷ rest) last h =
    rw (outcome_of-reported config (a ∷ rest) last h) (outcome_of-seen config (a ∷ rest) h)

-- With automatic downloads off, the same answers are reported once: a second check that gets them
-- neither notifies nor queues anything.
scheduled_check_again :
    (config : Config) (answers : Answers) (now : ℕ) (last : List ℕ)
    → config.scheduler_auto_download ≡ false
    → let reported = (scheduled_check config answers now last).last_reported_ids in
      ((scheduled_check config answers now reported).notice ≡ none)
      × ((scheduled_check config answers now reported).enqueued ≡ [])
unfolding scheduled_check
scheduled_check_again config answers now last h = elim (Bool-cases answers.is_downloading) [
  | inl e ↦ rw e (refl, refl)
  | inr e ↦ rw e (outcome_for_again config (chosen_albums config answers now) last h)
]
