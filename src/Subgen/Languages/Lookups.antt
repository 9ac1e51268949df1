-- ===== src/Subgen/Languages/Lookups.antt =====
-- The look-ups of `LanguageCode` in its members, and its `__eq__` and `__bool__`.
use mediahub_configs.Prelude.{Bool, not, ◌||◌, ◌&&◌, Option, none, some}
use Prim.Native.String.{String}
use mediahub_configs.Prelude.Equality.{◌=?◌, string_eq, option_eq}
use mediahub_configs.Subgen.Languages.{Language, no_language, first_language}
use mediahub_configs.Subgen.Languages.Table.{languages}

unfoldable pub from_iso_639_1 : Option String → Language
unfolding first_language
from_iso_639_1 code = first_language (λ lang. lang.iso_639_1 =? code) languages

unfoldable pub from_iso_639_2 : Option String → Language
unfolding first_language
from_iso_639_2 code =
    first_language (λ lang. lang.iso_639_2_t =? code || lang.iso_639_2_b =? code) languages

-- `__bool__`
abbrev pub is_language : Language → Bool
is_language lang = not (lang.iso_639_1 =? none)

-- `__eq__` of two members: by their first codes.
abbrev pub language_eq : Language → Language → Bool
language_eq a b = a.iso_639_1 =? b.iso_639_1

-- `str.lower`, and below `str.strip`.
module _ (lower : String → String) where
  abbrev pub lowered : Option String → Option String
  lowered none = none
  lowered (some name) = some (lower name)

  -- Whether the member, NONE left out, has the stripped and lowered text as a code or a name.
  abbrev pub is_called : String → Language → Bool
  is_called value lang =
      is_language lang
      && (lang.iso_639_1 =? some value
          || lang.iso_639_2_t =? some value
          || lang.iso_639_2_b =? some value
          || lowered lang.name_en =? some value
          || lowered lang.name_native =? some value)

  module _ (strip : String → String) where
    unfoldable pub from_string : Option String → Language
    unfolding first_language
    from_string none = no_language
    from_string (some value) = first_language (is_called (lower (strip value))) languages

    unfoldable pub is_valid_language : Option String → Bool
    unfolding from_string
    is_valid_language language = is_language (from_string language)
