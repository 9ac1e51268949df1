-- ===== src/Subgen/Plex/InShow.antt =====
-- The loop of `receive_plex_webhook` over the seasons of a show.
use mediahub_configs.Prelude.{
  ℕ, zero, suc, ◌+◌, ◌≡◌, ◌≤◌, ◌<◌, ◌-◌, refl, false, Option, none, some, List, [], ◌∷◌, ◌++◌, map,
  All, length, length-append, arith, sym, subst, ap, ◌∙◌,
}
use mathlib.Core.List.{append_assoc}
use mediahub_configs.Prelude.Equality.{Eq}
use mediahub_configs.Subgen.Plex.{
  Episode, Season, Plex, get_next_plex_episode, season_after, first_of, queue_episodes,
}
use mediahub_configs.Subgen.Plex.Next.{
  IsListed, AreNumbered, get_next_plex_episode_listed, next_in_show-next, next_in_show-last,
  season_after-next, season_after-last, numbered-append,
}
use mediahub_configs.Subgen.Plex.InSeason.{
  queue_all, queue_all-append, HasFile, queue_episodes-last, queue_episodes-next,
}

-- A season with its episodes, of which there is one at least.
pub record Aired (K : Type 0) : Type 0 where
  pub season : Season K
  pub first : Episode K
  pub rest : List (Episode K)

abbrev pub all_of : {K : Type 0} → Aired K → List (Episode K)
all_of a = a.first ∷ a.rest

abbrev pub seasons_of : {K : Type 0} → List (Aired K) → List (Season K)
seasons_of = map (λ a. a.season)

abbrev pub episodes_of : {K : Type 0} → List (Aired K) → List (Episode K)
episodes_of [] = []
episodes_of (a ∷ more) = all_of a ++ episodes_of more

module _ {K P Q : Type 0} ⦃eq : Eq K⦄ (queue_file : P → K → Q → Q) (p : Plex K)
    (file_of : K → Option P) (file : K → P) where
  -- What the loop does after a season.
  abbrev continued : Option K → ℕ → Q → Option Q
  continued none k q = some q
  continued (some key) k q = queue_episodes queue_file p file_of k false key q

  last_of_season :
      (e : Episode K) (o : Option K) (fuel : ℕ) (q : Q)
      → HasFile queue_file p file_of file e
      → get_next_plex_episode p e.rating_key false ≡ o
      → queue_episodes queue_file p file_of (suc fuel) false e.rating_key q
        ≡ continued o fuel (queue_file (file e.rating_key) e.rating_key q)
  last_of_season e none fuel q has h =
      queue_episodes-last queue_file p file_of file fuel false e q has h
  last_of_season e (some key) fuel q has h =
      queue_episodes-next queue_file p file_of file fuel false e key q has h

  rest_of_season :
      (show season : K) (seasons : List (Season K)) (c : ℕ) (next : Option K)
      (before : List (Episode K)) (e : Episode K) (after : List (Episode K)) (fuel k : ℕ) (q : Q)
      → IsListed p show season seasons (before ++ e ∷ after)
      → All (HasFile queue_file p file_of file) (e ∷ after)
      → All (λ x. x.parent_index ≡ some c) (e ∷ after)
      → season_after (some c) seasons ≡ some next
      → fuel ≡ suc (length after) + k
      → queue_episodes queue_file p file_of fuel false e.rating_key q
        ≡ continued (first_of p next) k (queue_all queue_file file (e ∷ after) q)
  rest_of_season show season seasons c next before e after zero k q l files numbers s h =
      absurd (omega arith)
  rest_of_season show season seasons c next before e [] (suc fuel) k q l (has, files)
        (number, numbers) s h =
      let here =
        get_next_plex_episode_listed p show season seasons before e [] l false
        ∙ next_in_show-last p e.parent_index seasons next before e (rw number s) in
      let same : fuel ≡ k = omega arith in
      rw (sym same) (last_of_season e (first_of p next) fuel q has here)
  rest_of_season show season seasons c next before e (f ∷ fs) (suc fuel) k q l (has, files)
        (number, numbers) s h =
      let same = append_assoc before (e ∷ []) (f ∷ fs) in
      let next_q = queue_file (file e.rating_key) e.rating_key q in
      let shifted = subst (IsListed p show season seasons) (sym same) l in
      let here =
        get_next_plex_episode_listed p show season seasons before e (f ∷ fs) l false
        ∙ next_in_show-next p e.parent_index seasons next before e f fs (rw number s) l.numbers in
      queue_episodes-next queue_file p file_of file fuel false e f.rating_key q has here
      ∙ rest_of_season show season seasons c next (before ++ e ∷ []) f fs fuel k next_q shifted
          files numbers s (omega arith)

  -- A show as Plex lists it: the seasons with the numbers after `n`, and each with its episodes.
  abbrev pub AreAired : K → List (Season K) → ℕ → List (Aired K) → Type 0
  AreAired show seasons n [] = Unit
  AreAired show seasons n (a ∷ more) =
      IsListed p show a.season.rating_key seasons (all_of a)
      × All (HasFile queue_file p file_of file) (all_of a)
      × All (λ x. x.parent_index ≡ some (suc n)) (all_of a)
      × AreAired show seasons (suc n) more

  continued_season :
      (show : K) (seasons : List (Season K)) (c : ℕ) (next : Option K) (a : Aired K) (fuel k : ℕ)
      (q : Q)
      → IsListed p show a.season.rating_key seasons (all_of a)
      → All (HasFile queue_file p file_of file) (all_of a)
      → All (λ x. x.parent_index ≡ some c) (all_of a)
      → season_after (some c) seasons ≡ some next
      → fuel ≡ suc (length a.rest) + k
      → continued (first_of p (some a.season.rating_key)) fuel q
        ≡ continued (first_of p next) k (queue_all queue_file file (all_of a) q)
  continued_season show seasons c next a fuel k q l files numbers s h =
      let first : first_of p (some a.season.rating_key) ≡ some a.first.rating_key =
        rw l.has_episodes (numbered-append 0 [] a.first a.rest l.numbers) in
      rw first (
        rest_of_season show a.season.rating_key seasons c next [] a.first a.rest fuel k q l files
          numbers s h)

  -- The seasons that come after one.
  continued-queue_all :
      (show : K) (seasons : List (Season K)) (n fuel : ℕ) (old : List (Season K)) (s : Season K)
      (more : List (Aired K)) (q : Q)
      → AreNumbered 0 (old ++ s ∷ seasons_of more)
      → seasons ≡ old ++ s ∷ seasons_of more
      → n ≡ suc (length old)
      → AreAired show seasons n more
      → length (episodes_of more) ≤ fuel
      → (next : Option K) × (season_after (some n) seasons ≡ some next)
        × (continued (first_of p next) fuel q
            ≡ some (queue_all queue_file file (episodes_of more) q))
  continued-queue_all show seasons n fuel old s [] q numbers e i h f =
      (none, rw e (season_after-last 0 n old s numbers (omega arith)), refl)
  continued-queue_all show seasons n fuel old s (a ∷ more) q numbers e i (l, files, places, hs) f =
      let same = append_assoc old (s ∷ []) (a.season ∷ seasons_of more) in
      let left = fuel - suc (length a.rest) in
      let long = length-append (all_of a) (episodes_of more) in
      let (next, after, rest) =
        continued-queue_all show seasons (suc n) left (old ++ s ∷ []) a.season more
          (queue_all queue_file file (all_of a) q) (subst (AreNumbered 0) (sym same) numbers)
          (e ∙ sym same) (omega (arith, length-append old (s ∷ []))) hs (omega (arith, long)) in
      let here =
        continued_season show seasons (suc n) next a fuel left q l files places after
          (omega (arith, long)) in
      (
        some a.season.rating_key,
        rw e (season_after-next 0 n old s a.season (seasons_of more) numbers (omega arith)),
        here
            ∙ rest
            ∙ ap some (sym (queue_all-append queue_file file (all_of a) (episodes_of more) q)),
      )

  -- In a show whose seasons and episodes are numbered one by one, and of which every file is found,
  -- the loop over the series queues the episode it begins with, the rest of its season and every
  -- season after it, each episode once and in the order of the show, and ends.
  pub queue_episodes-episodes_of :
      (show : K) (old : List (Season K)) (s : Season K) (more : List (Aired K))
      (before : List (Episode K)) (e : Episode K) (after : List (Episode K)) (fuel : ℕ) (q : Q)
      → AreNumbered 0 (old ++ s ∷ seasons_of more)
      → IsListed p show s.rating_key (old ++ s ∷ seasons_of more) (before ++ e ∷ after)
      → All (HasFile queue_file p file_of file) (e ∷ after)
      → All (λ x. x.parent_index ≡ some (suc (length old))) (e ∷ after)
      → AreAired show (old ++ s ∷ seasons_of more) (suc (length old)) more
      → length (after ++ episodes_of more) < fuel
      → queue_episodes queue_file p file_of fuel false e.rating_key q
        ≡ some (queue_all queue_file file ((e ∷ after) ++ episodes_of more) q)
  queue_episodes-episodes_of show old s more before e after fuel q numbers l files places aired f =
      let seasons = old ++ s ∷ seasons_of more in
      let left = fuel - suc (length after) in
      let long = length-append after (episodes_of more) in
      let next_q = queue_all queue_file file (e ∷ after) q in
      let (next, here, rest) =
        continued-queue_all show seasons (suc (length old)) left old s more next_q numbers refl refl
          aired (omega (arith, long)) in
      rest_of_season show s.rating_key seasons (suc (length old)) next before e after fuel left q l
        files places here (omega (arith, long))
      ∙ rest
      ∙ ap some (sym (queue_all-append queue_file file (e ∷ after) (episodes_of more) q))
