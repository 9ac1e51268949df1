-- ===== src/Subgen/Languages/Laws.antt =====
-- What the look-ups of `LanguageCode` find.
use mediahub_configs.Prelude.{
  ◌≡◌, refl, sym, ap, ◌∙◌, ◌↔◌, inl, inr, Bool, true, ◌&&◌, some, List, [], ◌∷◌, ◌∈◌, All, All-mem,
  arith, Bool-cases,
}
use Prim.Native.String.{String}
use mediahub_configs.Prelude.Equality.{◌=?◌, string_eq, option_eq, option_beq_iff}
use mediahub_configs.Subgen.Languages.{Language, first_language}
use mediahub_configs.Subgen.Languages.Table.{languages}
use mediahub_configs.Subgen.Languages.Lookups.{
  from_iso_639_1, from_iso_639_2, is_language, language_eq, is_called, from_string,
  is_valid_language,
}

abbrev every : {A : Type 0} → (A → Bool) → List A → Bool
every p [] = true
every p (x ∷ xs) = p x && every p xs

every-All : {A : Type 0} (p : A → Bool) (xs : List A) → every p xs ≡ true → All (λ x. p x ≡ true) xs
every-All p [] h = tt
every-All p (x ∷ xs) h = ground (arith, every-All p xs)

-- All five fields are the same.
abbrev same_language : Language → Language → Bool
same_language a b =
    a.iso_639_1 =? b.iso_639_1
    && a.iso_639_2_t =? b.iso_639_2_t
    && a.iso_639_2_b =? b.iso_639_2_b
    && a.name_en =? b.name_en
    && a.name_native =? b.name_native

same_language-eq : (a b : Language) → same_language a b ≡ true → a ≡ b
same_language-eq a b h = ground (
  arith,
  option_beq_iff a.iso_639_1 b.iso_639_1,
  option_beq_iff a.iso_639_2_t b.iso_639_2_t,
  option_beq_iff a.iso_639_2_b b.iso_639_2_b,
  option_beq_iff a.name_en b.name_en,
  option_beq_iff a.name_native b.name_native,
)

abbrev own_1 : Language → Bool
own_1 lang = same_language (from_iso_639_1 lang.iso_639_1) lang

abbrev own_2 : Language → Bool
own_2 lang =
    same_language (from_iso_639_2 lang.iso_639_2_t) lang
    && same_language (from_iso_639_2 lang.iso_639_2_b) lang

found_by_1 : every own_1 languages ≡ true
unfolding from_iso_639_1
found_by_1 = refl

found_by_2 : every own_2 languages ≡ true
unfolding from_iso_639_2
found_by_2 = refl

both : (a b : Bool) → a && b ≡ true → (a ≡ true) × (b ≡ true)
both a b h = ground arith

-- Each member, NONE included, is found by its codes: no two members share one.
from_iso_own :
    (lang : Language)
    → lang ∈ languages
    → (from_iso_639_1 lang.iso_639_1 ≡ lang)
      × (from_iso_639_2 lang.iso_639_2_t ≡ lang)
      × (from_iso_639_2 lang.iso_639_2_b ≡ lang)
from_iso_own lang m =
    let one =
      All-mem (λ l. own_1 l ≡ true) lang languages (every-All own_1 languages found_by_1) m in
    let two =
      All-mem (λ l. own_2 l ≡ true) lang languages (every-All own_2 languages found_by_2) m in
    (
      same_language-eq _ lang one,
      same_language-eq (from_iso_639_2 lang.iso_639_2_t) lang (both _ _ two).0,
      same_language-eq (from_iso_639_2 lang.iso_639_2_b) lang (both _ _ two).1,
    )

-- `__eq__` compares one code only, and tells any two members apart.
pub language_eq_iff :
    (a b : Language) → a ∈ languages → b ∈ languages → (language_eq a b ≡ true) ↔ (a ≡ b)
language_eq_iff a b m n = (
  λ h.
      sym (from_iso_own a m).0
      ∙ ap from_iso_639_1 ((option_beq_iff a.iso_639_1 b.iso_639_1).0 h)
      ∙ (from_iso_own b n).0,
  λ p. (option_beq_iff a.iso_639_1 b.iso_639_1).1 (ap (λ l. l.iso_639_1) p),
)

-- The first member that is accepted.
first_language-found :
    (accepts : Language → Bool) (ls : List Language)
    → is_language (first_language accepts ls) ≡ true
    → (lang : Language) × (lang ∈ ls) × (accepts lang ≡ true)
unfolding first_language
first_language-found accepts [] h = absurd (ground arith)
first_language-found accepts (lang ∷ ls) h = elim (Bool-cases (accepts lang)) [
  | inl e ↦ (lang, inl refl, e)
  | inr e ↦
      let (l, m, q) = first_language-found accepts ls (rw (e, first_language) at h) in (l, inr m, q)
]

first_language-is_language :
    (accepts : Language → Bool) (ls : List Language) (lang : Language)
    → ((l : Language) → accepts l ≡ true → is_language l ≡ true)
    → lang ∈ ls
    → accepts lang ≡ true
    → is_language (first_language accepts ls) ≡ true
unfolding first_language
first_language-is_language accepts [] lang real m h = absurd m
first_language-is_language accepts (l ∷ ls) lang real m h = elim (Bool-cases (accepts l)) [
  | inl e ↦ rw (e, first_language) (real l e)
  | inr e ↦
      let later : lang ∈ ls = elim m [ inl p ↦ absurd (cc) | inr n ↦ n ] in
      rw (e, first_language) (first_language-is_language accepts ls lang real later h)
]

-- A text is valid exactly if it is, stripped and lowered, a code or a lowered name of a member.
is_valid_language_iff :
    (lower strip : String → String) (value : String)
    → (is_valid_language lower strip (some value) ≡ true) ↔ (
        (lang : Language) × (lang ∈ languages)
        × (is_called lower (lower (strip value)) lang ≡ true))
unfolding is_valid_language from_string
is_valid_language_iff lower strip value = (
  λ h. first_language-found (is_called lower (lower (strip value))) languages h,
  λ (lang, m, h).
      first_language-is_language (is_called lower (lower (strip value))) languages lang
        (λ l k. ground arith) m h,
)
