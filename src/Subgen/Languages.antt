-- ===== src/Subgen/Languages.antt =====
-- language_code.py: `LanguageCode`, its look-ups and its equality.
pub mod Table
pub mod Lookups
pub mod Laws
use mediahub_configs.Prelude.{
  Bool, true, false, not, ◌||◌, ◌&&◌, Option, none, some, List, [], ◌∷◌, if◌then◌else◌, ℕ,
}
use Prim.Native.String.{String}
use mediahub_configs.Prelude.Equality.{Eq, ◌=?◌}

-- A member of the enum: the ISO 639-1, 639-2/T and 639-2/B codes, and the English and native names.
pub record Language : Type 0 where
  pub iso_639_1 : Option String
  pub iso_639_2_t : Option String
  pub iso_639_2_b : Option String
  pub name_en : Option String
  pub name_native : Option String

-- LanguageCode.NONE
abbrev pub no_language : Language
no_language = record {
  iso_639_1 = none;
  iso_639_2_t = none;
  iso_639_2_b = none;
  name_en = none;
  name_native = none;
}

-- The first member that a test accepts, else NONE.
pub first_language : (Language → Bool) → List Language → Language
first_language accepts [] = no_language
first_language accepts (lang ∷ rest) =
    let later = first_language accepts rest in if accepts lang then lang else later
