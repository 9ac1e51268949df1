-- ===== src/Subgen/Languages/Table.antt =====
-- The members of `LanguageCode`, in their order.
use mediahub_configs.Prelude.{some, List, [], ◌∷◌}
use Prim.Native.String.{String}
use mediahub_configs.Subgen.Languages.{Language, no_language}

abbrev code : String → String → String → String → String → Language
code iso_639_1 iso_639_2_t iso_639_2_b name_en name_native = record {
  iso_639_1 = some iso_639_1;
  iso_639_2_t = some iso_639_2_t;
  iso_639_2_b = some iso_639_2_b;
  name_en = some name_en;
  name_native = some name_native;
}

abbrev pub languages : List Language
languages =
    code "aa" "aar" "aar" "Afar" "Afar"
    ∷ code "af" "afr" "afr" "Afrikaans" "Afrikaans"
    ∷ code "am" "amh" "amh" "Amharic" "አማርኛ"
    ∷ code "ar" "ara" "ara" "Arabic" "\u{627}\u{644}\u{639}\u{631}\u{628}\u{64a}\u{629}"
    ∷ code "as" "asm" "asm" "Assamese" "অসমীয়া"
    ∷ code "az" "aze" "aze" "Azerbaijani" "Azərbaycanca"
    ∷ code "ba" "bak" "bak" "Bashkir" "Башҡортса"
    ∷ code "be" "bel" "bel" "Belarusian" "Беларуская"
    ∷ code "bg" "bul" "bul" "Bulgarian" "Български"
    ∷ code "bn" "ben" "ben" "Bengali" "বাংলা"
    ∷ code "bo" "bod" "tib" "Tibetan" "བོད་ཡིག"
    ∷ code "br" "bre" "bre" "Breton" "Brezhoneg"
    ∷ code "bs" "bos" "bos" "Bosnian" "Bosanski"
    ∷ code "ca" "cat" "cat" "Catalan" "Català"
    ∷ code "cs" "ces" "cze" "Czech" "Čeština"
    ∷ code "cy" "cym" "wel" "Welsh" "Cymraeg"
    ∷ code "da" "dan" "dan" "Danish" "Dansk"
    ∷ code "de" "deu" "ger" "German" "Deutsch"
    ∷ code "el" "ell" "gre" "Greek" "Ελληνικά"
    ∷ code "en" "eng" "eng" "English" "English"
    ∷ code "es" "spa" "spa" "Spanish" "Español"
    ∷ code "et" "est" "est" "Estonian" "Eesti"
    ∷ code "eu" "eus" "baq" "Basque" "Euskara"
    ∷ code "fa" "fas" "per" "Persian" "\u{641}\u{627}\u{631}\u{633}\u{6cc}"
    ∷ code "fi" "fin" "fin" "Finnish" "Suomi"
    ∷ code "fo" "fao" "fao" "Faroese" "Føroyskt"
    ∷ code "fr" "fra" "fre" "French" "Français"
    ∷ code "gl" "glg" "glg" "Galician" "Galego"
    ∷ code "gu" "guj" "guj" "Gujarati" "ગુજરાતી"
    ∷ code "ha" "hau" "hau" "Hausa" "Hausa"
    ∷ code "haw" "haw" "haw" "Hawaiian" "ʻŌlelo Hawaiʻi"
    ∷ code "he" "heb" "heb" "Hebrew" "\u{5e2}\u{5d1}\u{5e8}\u{5d9}\u{5ea}"
    ∷ code "hi" "hin" "hin" "Hindi" "हिन्दी"
    ∷ code "hr" "hrv" "hrv" "Croatian" "Hrvatski"
    ∷ code "ht" "hat" "hat" "Haitian Creole" "Kreyòl Ayisyen"
    ∷ code "hu" "hun" "hun" "Hungarian" "Magyar"
    ∷ code "hy" "hye" "arm" "Armenian" "Հայերեն"
    ∷ code "id" "ind" "ind" "Indonesian" "Bahasa Indonesia"
    ∷ code "is" "isl" "ice" "Icelandic" "Íslenska"
    ∷ code "it" "ita" "ita" "Italian" "Italiano"
    ∷ code "ja" "jpn" "jpn" "Japanese" "日本語"
    ∷ code "jw" "jav" "jav" "Javanese" "ꦧꦱꦗꦮ"
    ∷ code "ka" "kat" "geo" "Georgian" "ქართული"
    ∷ code "kk" "kaz" "kaz" "Kazakh" "Қазақша"
    ∷ code "km" "khm" "khm" "Khmer" "ភាសាខ្មែរ"
    ∷ code "kn" "kan" "kan" "Kannada" "ಕನ್ನಡ"
    ∷ code "ko" "kor" "kor" "Korean" "한국어"
    ∷ code "la" "lat" "lat" "Latin" "Latina"
    ∷ code "lb" "ltz" "ltz" "Luxembourgish" "Lëtzebuergesch"
    ∷ code "ln" "lin" "lin" "Lingala" "Lingála"
    ∷ code "lo" "lao" "lao" "Lao" "ພາສາລາວ"
    ∷ code "lt" "lit" "lit" "Lithuanian" "Lietuvių"
    ∷ code "lv" "lav" "lav" "Latvian" "Latviešu"
    ∷ code "mg" "mlg" "mlg" "Malagasy" "Malagasy"
    ∷ code "mi" "mri" "mao" "Maori" "Te Reo Māori"
    ∷ code "mk" "mkd" "mac" "Macedonian" "Македонски"
    ∷ code "ml" "mal" "mal" "Malayalam" "മലയാളം"
    ∷ code "mn" "mon" "mon" "Mongolian" "Монгол"
    ∷ code "mr" "mar" "mar" "Marathi" "मराठी"
    ∷ code "ms" "msa" "may" "Malay" "Bahasa Melayu"
    ∷ code "mt" "mlt" "mlt" "Maltese" "Malti"
    ∷ code "my" "mya" "bur" "Burmese" "မြန်မာစာ"
    ∷ code "ne" "nep" "nep" "Nepali" "नेपाली"
    ∷ code "nl" "nld" "dut" "Dutch" "Nederlands"
    ∷ code "nn" "nno" "nno" "Norwegian Nynorsk" "Nynorsk"
    ∷ code "no" "nor" "nor" "Norwegian" "Norsk"
    ∷ code "oc" "oci" "oci" "Occitan" "Occitan"
    ∷ code "pa" "pan" "pan" "Punjabi" "ਪੰਜਾਬੀ"
    ∷ code "pl" "pol" "pol" "Polish" "Polski"
    ∷ code "ps" "pus" "pus" "Pashto" "\u{67e}\u{69a}\u{62a}\u{648}"
    ∷ code "pt" "por" "por" "Portuguese" "Português"
    ∷ code "ro" "ron" "rum" "Romanian" "Română"
    ∷ code "ru" "rus" "rus" "Russian" "Русский"
    ∷ code "sa" "san" "san" "Sanskrit" "संस्कृतम्"
    ∷ code "sd" "snd" "snd" "Sindhi" "\u{633}\u{646}\u{68c}\u{64a}"
    ∷ code "si" "sin" "sin" "Sinhala" "සිංහල"
    ∷ code "sk" "slk" "slo" "Slovak" "Slovenčina"
    ∷ code "sl" "slv" "slv" "Slovene" "Slovenščina"
    ∷ code "sn" "sna" "sna" "Shona" "ChiShona"
    ∷ code "so" "som" "som" "Somali" "Soomaaliga"
    ∷ code "sq" "sqi" "alb" "Albanian" "Shqip"
    ∷ code "sr" "srp" "srp" "Serbian" "Српски"
    ∷ code "su" "sun" "sun" "Sundanese" "Basa Sunda"
    ∷ code "sv" "swe" "swe" "Swedish" "Svenska"
    ∷ code "sw" "swa" "swa" "Swahili" "Kiswahili"
    ∷ code "ta" "tam" "tam" "Tamil" "தமிழ்"
    ∷ code "te" "tel" "tel" "Telugu" "తెలుగు"
    ∷ code "tg" "tgk" "tgk" "Tajik" "Тоҷикӣ"
    ∷ code "th" "tha" "tha" "Thai" "ไทย"
    ∷ code "tk" "tuk" "tuk" "Turkmen" "Türkmençe"
    ∷ code "tl" "tgl" "tgl" "Tagalog" "Tagalog"
    ∷ code "tr" "tur" "tur" "Turkish" "Türkçe"
    ∷ code "tt" "tat" "tat" "Tatar" "Татарча"
    ∷ code "uk" "ukr" "ukr" "Ukrainian" "Українська"
    ∷ code "ur" "urd" "urd" "Urdu" "\u{627}\u{631}\u{62f}\u{648}"
    ∷ code "uz" "uzb" "uzb" "Uzbek" "Oʻzbek"
    ∷ code "vi" "vie" "vie" "Vietnamese" "Tiếng Việt"
    ∷ code "yi" "yid" "yid" "Yiddish" "\u{5d9}\u{5d9}ִ\u{5d3}\u{5d9}\u{5e9}"
    ∷ code "yo" "yor" "yor" "Yoruba" "Yorùbá"
    ∷ code "zh" "zho" "chi" "Chinese" "中文"
    ∷ code "yue" "yue" "yue" "Cantonese" "粵語"
    ∷ no_language
    ∷ []
