-- ===== src/Subgen/Plex/InSeason.antt =====
-- The loop of `receive_plex_webhook` within one season.
use mediahub_configs.Prelude.{
  ℕ, zero, suc, ◌<◌, ◌≡◌, refl, Bool, true, Option, none, some, List, [], ◌∷◌, ◌++◌, All, length,
  arith, sym, subst, ◌∙◌,
}
use mathlib.Core.List.{append_assoc}
use mediahub_configs.Prelude.Equality.{Eq}
use mediahub_configs.Subgen.Plex.{Episode, Season, Plex, get_next_plex_episode, queue_episodes}
use mediahub_configs.Subgen.Plex.Next.{
  IsListed, get_next_plex_episode_listed, next_in_season-next, next_in_season-last,
}

module _ {K P Q : Type 0} (queue_file : P → K → Q → Q) (file : K → P) where
  -- The episodes, queued one after the other.
  abbrev pub queue_all : List (Episode K) → Q → Q
  queue_all [] q = q
  queue_all (e ∷ es) q = queue_all es (queue_file (file e.rating_key) e.rating_key q)

  pub queue_all-append :
      (es fs : List (Episode K)) (q : Q) → queue_all (es ++ fs) q ≡ queue_all fs (queue_all es q)
  queue_all-append [] fs q = refl
  queue_all-append (e ∷ es) fs q =
      queue_all-append es fs (queue_file (file e.rating_key) e.rating_key q)

module _ {K P Q : Type 0} ⦃eq : Eq K⦄ (queue_file : P → K → Q → Q) (p : Plex K)
    (file_of : K → Option P) (file : K → P) where
  abbrev pub HasFile : Episode K → Type 0
  HasFile e = file_of e.rating_key ≡ some (file e.rating_key)

  pub queue_episodes-last :
      (fuel : ℕ) (stay : Bool) (e : Episode K) (q : Q)
      → HasFile e
      → get_next_plex_episode p e.rating_key stay ≡ none
      → queue_episodes queue_file p file_of (suc fuel) stay e.rating_key q
        ≡ some (queue_file (file e.rating_key) e.rating_key q)
  unfolding queue_episodes
  queue_episodes-last fuel stay e q has next = rw (has, next, queue_episodes) refl

  pub queue_episodes-next :
      (fuel : ℕ) (stay : Bool) (e : Episode K) (key : K) (q : Q)
      → HasFile e
      → get_next_plex_episode p e.rating_key stay ≡ some key
      → queue_episodes queue_file p file_of (suc fuel) stay e.rating_key q
        ≡ queue_episodes queue_file p file_of fuel stay key
            (queue_file (file e.rating_key) e.rating_key q)
  unfolding queue_episodes
  queue_episodes-next fuel stay e key q has next = rw (has, next, queue_episodes) refl

  -- Within a season the loop queues the episode it begins with and all that come after it, each once
  -- and in their order, and ends.
  pub queue_episodes-queue_all :
      (show season : K) (seasons : List (Season K)) (before : List (Episode K)) (e : Episode K)
      (after : List (Episode K)) (fuel : ℕ) (q : Q)
      → IsListed p show season seasons (before ++ e ∷ after)
      → All HasFile (e ∷ after)
      → length after < fuel
      → queue_episodes queue_file p file_of fuel true e.rating_key q
        ≡ some (queue_all queue_file file (e ∷ after) q)
  queue_episodes-queue_all show season seasons before e after zero q l files h =
      absurd (omega arith)
  queue_episodes-queue_all show season seasons before e [] (suc fuel) q l (has, files) h =
      queue_episodes-last fuel true e q has (
        get_next_plex_episode_listed p show season seasons before e [] l true
        ∙ next_in_season-last before e)
  queue_episodes-queue_all show season seasons before e (f ∷ fs) (suc fuel) q l (has, files) h =
      let same = append_assoc before (e ∷ []) (f ∷ fs) in
      let next_q = queue_file (file e.rating_key) e.rating_key q in
      let shifted = subst (IsListed p show season seasons) (sym same) l in
      let next =
        get_next_plex_episode_listed p show season seasons before e (f ∷ fs) l true
        ∙ next_in_season-next before e f fs l.numbers in
      queue_episodes-next fuel true e f.rating_key q has next
      ∙ queue_episodes-queue_all show season seasons (before ++ e ∷ []) f fs fuel next_q shifted
          files (omega arith)
