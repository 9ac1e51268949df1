-- ===== src/Prelude/Text.antt =====
-- Texts as lists of code points: `text.split(c)` for one character, and `c.join(...)`.
use Prim.Native.Nat.{ℕ}
use mathlib.Core.Path.{◌≡◌, refl, ap, ◌∙◌}
use mathlib.Core.Logic.{◌≢◌, inl, inr}
use mathlib.Core.Option.{Option, none, some}
use mathlib.Core.List.{List, [], ◌∷◌, ◌++◌, reverse}
use mathlib.Core.Bool.{Bool, true, false, ◌&&◌, ◌||◌}
use native.Mathlib.Omega.{arith}
use mediahub_configs.Prelude.Lists.{All}
use mediahub_configs.Prelude.Tests.{◌==◌, ==_iff, if◌then◌else◌, Bool-cases}

abbrev pub first_longer : ℕ → List (List ℕ) → List (List ℕ)
first_longer x [] = (x ∷ []) ∷ []
first_longer x (field ∷ fields) = (x ∷ field) ∷ fields

-- There is always a field, so the case without one does not come up.
unfoldable pub split_on : ℕ → List ℕ → List (List ℕ)
split_on c [] = [] ∷ []
split_on c (x ∷ xs) =
    let fields = split_on c xs in if x == c then [] ∷ fields else first_longer x fields

-- Each field with the character behind it.
abbrev pub ended_by : ℕ → List (List ℕ) → List ℕ
ended_by c [] = []
ended_by c (field ∷ fields) = field ++ (c ∷ ended_by c fields)

ended_by-first_longer :
    (c x : ℕ) (f : List ℕ) (fs : List (List ℕ))
    → ended_by c (first_longer x (f ∷ fs)) ≡ x ∷ ended_by c (f ∷ fs)
ended_by-first_longer c x f fs = refl

split_on-cons :
    (c : ℕ) (xs : List ℕ) → (f : List ℕ) × ((fs : List (List ℕ)) × (split_on c xs ≡ f ∷ fs))
unfolding split_on
split_on-cons c [] = ([], ([], refl))
split_on-cons c (x ∷ xs) =
    let (f, more) = split_on-cons c xs in
    let (fs, e) = more in
    elim (Bool-cases (x == c)) [
      | inl q ↦ ([], (split_on c xs, rw (q, split_on) refl))
      | inr q ↦ (x ∷ f, (fs, rw (q, e, split_on) refl))
    ]

pub ended_by-split_on : (c : ℕ) (xs : List ℕ) → ended_by c (split_on c xs) ≡ xs ++ c ∷ []
unfolding split_on
ended_by-split_on c [] = refl
ended_by-split_on c (x ∷ xs) =
    let (f, more) = split_on-cons c xs in
    let (fs, e) = more in ground (arith, e, ended_by-split_on c xs, ==_iff x c)

abbrev pub is_prefix : List ℕ → List ℕ → Bool
is_prefix [] text = true
is_prefix (c ∷ word) [] = false
is_prefix (c ∷ word) (d ∷ text) = c == d && is_prefix word text

-- `word in text`
abbrev pub is_part : List ℕ → List ℕ → Bool
is_part word [] = is_prefix word []
is_part word (d ∷ text) = is_prefix word (d ∷ text) || is_part word text

-- `text.rsplit(word, 1)[0]`, or none if the word is not in the text.
unfoldable pub before_last : List ℕ → List ℕ → Option (List ℕ)
before_last word [] = none
before_last word (x ∷ xs) = elim (before_last word xs) [
  | some front ↦ some (x ∷ front)
  | none ↦ if is_prefix word (x ∷ xs) then some [] else none
]

-- `text.split(c, 1)[0]`
unfoldable pub before_first : ℕ → List ℕ → List ℕ
before_first c [] = []
before_first c (x ∷ xs) = let rest = before_first c xs in if x == c then [] else x ∷ rest

-- `text.strip()` and `text.rstrip("*")`, with what is taken off as a test.
abbrev pub strip_left : (ℕ → Bool) → List ℕ → List ℕ
strip_left is_off [] = []
strip_left is_off (c ∷ cs) = elim (is_off c) [ true ↦ strip_left is_off cs | false ↦ c ∷ cs ]

abbrev pub strip_right : (ℕ → Bool) → List ℕ → List ℕ
strip_right is_off cs = reverse (strip_left is_off (reverse cs))

-- A character that is not in a text splits it nowhere.
abbrev pub IsWithout : ℕ → List ℕ → Type 0
IsWithout c xs = All (λ x. x ≢ c) xs

pub split_on-append :
    (c : ℕ) (xs ys : List ℕ) → IsWithout c xs → split_on c (xs ++ (c ∷ ys)) ≡ xs ∷ split_on c ys
unfolding split_on
split_on-append c [] ys h = ground (arith, ==_iff c c)
split_on-append c (x ∷ xs) ys h = ground (arith, h.0, split_on-append c xs ys h.1, ==_iff x c)

-- The fields of a text in which each is ended by the character.
pub split_on-ended_by :
    (c : ℕ) (fields : List (List ℕ))
    → All (IsWithout c) fields
    → split_on c (ended_by c fields) ≡ fields ++ [] ∷ []
unfolding split_on
split_on-ended_by c [] h = refl
split_on-ended_by c (field ∷ fields) h =
    split_on-append c field (ended_by c fields) h.0
    ∙ ap (λ l. field ∷ l) (split_on-ended_by c fields h.1)
