-- ===== src/Bazarr/Attempts.antt =====
-- The files that a run leaves behind, and the items that are wanted.
use mediahub_configs.Prelude.{
  ℕ, ◌+◌, Bool, not, ◌&&◌, Option, none, some, List, [], leb, any, keep_if,
}
use mediahub_configs.Prelude.Equality.{◌=?◌, list_eq, nat_eq}
use mediahub_configs.Prelude.Dict.{get, put}
use mediahub_configs.Prelude.Codes.{codes}

pub data Kind : Type 0 where
  episode movie : Kind

-- The failed attempts of each item: the key is the number of the item, as text in the source.
pub record Attempts : Type 0 where
  pub episodes : List (ℕ × ℕ)
  pub movies : List (ℕ × ℕ)

abbrev pub attempts_of : Kind → Attempts → List (ℕ × ℕ)
attempts_of episode a = a.episodes
attempts_of movie a = a.movies

-- The files of the attempts and of the cooldown; none if a file is missing or cannot be read.
pub record Files : Type 0 where
  pub attempts : Option Attempts
  pub cooldown_until : Option ℕ

abbrev pub load_attempts : Files → Attempts
load_attempts f = elim f.attempts [ none ↦ record { episodes = []; movies = [] } | some a ↦ a ]

abbrev pub count_or_zero : Option ℕ → ℕ
count_or_zero none = 0
count_or_zero (some n) = n

abbrev pub counted : Kind → ℕ → Attempts → ℕ
counted kind id a = count_or_zero (get id (attempts_of kind a))

abbrev pub with_attempts : Kind → List (ℕ × ℕ) → Attempts → Attempts
with_attempts episode d a = record { episodes = d; movies = a.movies }
with_attempts movie d a = record { episodes = a.episodes; movies = d }

unfoldable pub record_failure : Kind → ℕ → Files → Files
record_failure kind id f =
    let a = load_attempts f in
    let d = put id (counted kind id a + 1) (attempts_of kind a) in
    record { attempts = some (with_attempts kind d a); cooldown_until = f.cooldown_until }

pub record Missing : Type 0 where
  pub code2 : List ℕ
  pub forced : Bool
  pub hi : Bool

pub record Item : Type 0 where
  pub id : ℕ
  pub missing_subtitles : List Missing

abbrev pub skip_after_attempts : ℕ
skip_after_attempts = 2

abbrev pub lacks : List ℕ → Item → Bool
lacks code item = any (λ m. m.code2 =? code) item.missing_subtitles

abbrev pub is_blocked : Kind → Attempts → ℕ → Bool
is_blocked kind a id = leb skip_after_attempts (counted kind id a)

-- Of what the API lists: Spanish is missing, English is not, and the item has not failed too often.
unfoldable pub get_wanted : Kind → Attempts → List Item → List Item
get_wanted kind a items =
    keep_if
      (λ item.
        lacks (codes "es") item
        && (not (lacks (codes "en") item) && not (is_blocked kind a item.id)))
      items
