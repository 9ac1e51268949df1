-- ===== src/Subgen/Plex/Next.antt =====
-- What `get_next_plex_episode` answers in a show whose seasons and episodes are numbered one by one.
use mediahub_configs.Prelude.{
  ℕ, suc, ◌+◌, ◌≡◌, ◌≢◌, refl, Bool, true, false, Option, none, some, List, [], ◌∷◌, ◌++◌, All,
  All-mem, ◌∈◌, inl, mem-append_right, length, length-append, arith, ◌==◌, ap, sym, subst, ◌∙◌,
}
use mathlib.Core.List.{append_assoc}
use mediahub_configs.Prelude.Equality.{Eq}
use mediahub_configs.Subgen.Plex.{
  Episode, Season, Plex, numbered, season_after, next_in_season, next_in_show, find_episode,
  get_next_plex_episode, first_of,
}

module _ {K : Type 0} where
  abbrev pub IsNumbered : ℕ → List (Episode K) → Type 0
  IsNumbered n [] = Unit
  IsNumbered n (e ∷ es) = (e.index ≡ some (suc n)) × IsNumbered (suc n) es

  abbrev pub AreDistinct : List (Episode K) → Type 0
  AreDistinct [] = Unit
  AreDistinct (e ∷ es) = All (λ x. e.rating_key ≢ x.rating_key) es × AreDistinct es

  abbrev pub AreNumbered : ℕ → List (Season K) → Type 0
  AreNumbered n [] = Unit
  AreNumbered n (s ∷ ss) = (s.index ≡ some (suc n)) × AreNumbered (suc n) ss

  pub numbered-append :
      (n : ℕ) (before : List (Episode K)) (e : Episode K) (after : List (Episode K))
      → IsNumbered n (before ++ e ∷ after)
      → numbered (suc (n + length before)) (before ++ e ∷ after) ≡ some e.rating_key
  unfolding numbered
  numbered-append n [] e after (i, is) = rw i (ground arith)
  numbered-append n (b ∷ bs) e after (i, is) =
      let same : suc (suc n + length bs) ≡ suc (n + length (b ∷ bs)) = omega arith in
      let rest : numbered (suc (n + length (b ∷ bs))) (bs ++ e ∷ after) ≡ some e.rating_key =
        subst (λ k. numbered k (bs ++ e ∷ after) ≡ some e.rating_key) same
          (numbered-append (suc n) bs e after is) in
      rw i (ground (arith, rest))

  pub index-append :
      (n : ℕ) (before : List (Episode K)) (e : Episode K) (after : List (Episode K))
      → IsNumbered n (before ++ e ∷ after)
      → e.index ≡ some (suc (n + length before))
  index-append n [] e after (i, is) = rw i (ap some (omega arith))
  index-append n (b ∷ bs) e after (i, is) =
      rw (index-append (suc n) bs e after is) (ap some (omega arith))

  pub season_after-next :
      (n c : ℕ) (before : List (Season K)) (s t : Season K) (after : List (Season K))
      → AreNumbered n (before ++ s ∷ t ∷ after)
      → c ≡ suc (n + length before)
      → season_after (some c) (before ++ s ∷ t ∷ after) ≡ some (some t.rating_key)
  unfolding season_after
  season_after-next n c [] s t after (i, (j, is)) h = rw (i, j) (ground arith)
  season_after-next n c (b ∷ bs) s t after (i, is) h =
      rw i (ground (arith, season_after-next (suc n) c bs s t after is (omega arith)))

  pub season_after-last :
      (n c : ℕ) (before : List (Season K)) (s : Season K)
      → AreNumbered n (before ++ s ∷ [])
      → c ≡ suc (n + length before)
      → season_after (some c) (before ++ s ∷ []) ≡ some none
  unfolding season_after
  season_after-last n c [] s (i, is) h = rw i (ground arith)
  season_after-last n c (b ∷ bs) s (i, is) h =
      rw i (ground (arith, season_after-last (suc n) c bs s is (omega arith)))

-- What Plex says of a season of a show.
pub record IsListed {K : Type 0} (p : Plex K) (show season : K) (seasons : List (Season K))
    (episodes : List (Episode K)) : Type 0 where
  pub has_seasons : p.seasons show ≡ some seasons
  pub has_episodes : p.episodes season ≡ some episodes
  pub parents : All (λ e. p.parents e.rating_key ≡ some (some show, some season)) episodes
  pub numbers : IsNumbered 0 episodes
  pub distinct : AreDistinct episodes

mem-middle : {A : Type 0} (before : List A) (e : A) (after : List A) → e ∈ before ++ e ∷ after
mem-middle before e after = mem-append_right e before (e ∷ after) (inl refl)

module _ {K : Type 0} ⦃eq : Eq K⦄ where
  find_episode-append :
      (before : List (Episode K)) (e : Episode K) (after : List (Episode K))
      → AreDistinct (before ++ e ∷ after)
      → find_episode e.rating_key (before ++ e ∷ after) ≡ some e
  unfolding find_episode
  find_episode-append [] e after h = ground (arith, eq.beq_iff e.rating_key e.rating_key)
  find_episode-append (b ∷ bs) e after (h, hs) =
      let other = All-mem _ e (bs ++ e ∷ after) h (mem-middle bs e after) in
      ground (arith, other, eq.beq_iff b.rating_key e.rating_key, find_episode-append bs e after hs)

  -- The number of an episode that is listed is its place.
  pub get_next_plex_episode_listed :
      (p : Plex K) (show season : K) (seasons : List (Season K)) (before : List (Episode K))
      (e : Episode K) (after : List (Episode K))
      → IsListed p show season seasons (before ++ e ∷ after)
      → (stay : Bool)
      → get_next_plex_episode p e.rating_key stay ≡ elim stay [
        | true ↦ next_in_season (suc (length before)) (before ++ e ∷ after)
        | false ↦ next_in_show p (suc (length before)) e.parent_index seasons (before ++ e ∷ after)
      ]
  unfolding get_next_plex_episode
  get_next_plex_episode_listed p show season seasons before e after l stay =
      let known = All-mem _ e (before ++ e ∷ after) l.parents (mem-middle before e after) in
      let found = find_episode-append before e after l.distinct in
      let number : e.index ≡ some (suc (length before)) =
        index-append 0 before e after l.numbers ∙ ap (λ k. some (suc k)) (omega arith) in
      rw (known, l.has_seasons, l.has_episodes, found, number) refl

  is_last :
      (before : List (Episode K)) (e : Episode K)
      → (suc (length before) == length (before ++ e ∷ [])) ≡ true
  is_last before e = rw (length-append before (e ∷ [])) (ground arith)

  is_not_last :
      (before : List (Episode K)) (e f : Episode K) (after : List (Episode K))
      → (suc (length before) == length (before ++ e ∷ f ∷ after)) ≡ false
  is_not_last before e f after = rw (length-append before (e ∷ f ∷ after)) (ground arith)

  numbered-next :
      (before : List (Episode K)) (e f : Episode K) (after : List (Episode K))
      → IsNumbered 0 (before ++ e ∷ f ∷ after)
      → numbered (suc (length before) + 1) (before ++ e ∷ f ∷ after) ≡ some f.rating_key
  numbered-next before e f after h =
      let same = append_assoc before (e ∷ []) (f ∷ after) in
      let place : suc (0 + length (before ++ e ∷ [])) ≡ suc (length before) + 1 =
        omega (arith, length-append before (e ∷ [])) in
      let there =
        numbered-append 0 (before ++ e ∷ []) f after (subst (IsNumbered 0) (sym same) h) in
      rw (sym place, sym same) there

  pub next_in_season-next :
      (before : List (Episode K)) (e f : Episode K) (after : List (Episode K))
      → IsNumbered 0 (before ++ e ∷ f ∷ after)
      → next_in_season (suc (length before)) (before ++ e ∷ f ∷ after) ≡ some f.rating_key
  unfolding next_in_season
  next_in_season-next before e f after h =
      rw (is_not_last before e f after) (numbered-next before e f after h)

  pub next_in_season-last :
      (before : List (Episode K)) (e : Episode K)
      → next_in_season (suc (length before)) (before ++ e ∷ []) ≡ none
  unfolding next_in_season
  next_in_season-last before e = rw (is_last before e) refl

  pub next_in_show-next :
      (p : Plex K) (c : Option ℕ) (seasons : List (Season K)) (next : Option K)
      (before : List (Episode K)) (e f : Episode K) (after : List (Episode K))
      → season_after c seasons ≡ some next
      → IsNumbered 0 (before ++ e ∷ f ∷ after)
      → next_in_show p (suc (length before)) c seasons (before ++ e ∷ f ∷ after) ≡ some f.rating_key
  unfolding next_in_show
  next_in_show-next p c seasons next before e f after s h =
      rw (s, is_not_last before e f after) (numbered-next before e f after h)

  pub next_in_show-last :
      (p : Plex K) (c : Option ℕ) (seasons : List (Season K)) (next : Option K)
      (before : List (Episode K)) (e : Episode K)
      → season_after c seasons ≡ some next
      → next_in_show p (suc (length before)) c seasons (before ++ e ∷ []) ≡ first_of p next
  unfolding next_in_show
  next_in_show-last p c seasons next before e s = rw (s, is_last before e) refl
