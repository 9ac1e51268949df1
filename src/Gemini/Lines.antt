-- ===== src/Gemini/Lines.antt =====
-- `_process_translated_lines`: the lines of an answer are written into the list of subtitles.
pub mod Written
use mediahub_configs.Prelude.{
  ℕ, ◌+◌, Bool, true, false, List, [], ◌∷◌, ◌++◌, if◌then◌else◌, length, keep_if, any, set, ltb,
  ◌==◌,
}

-- The index is the number of the subtitle in the file; the source keeps it as `str(i)`.
pub record SubtitleObject : Type 0 where
  pub index : ℕ
  pub content : List ℕ

-- A line of an answer: it lacks a key; or it cannot be used, and the loop raises (its index is not
-- the `str` of a number, its content not a text, or it is not a dict at all); or it is as asked.
pub data Line : Type 0 where
  incomplete : Line
  unusable : Line
  line : (index : ℕ) (content : List ℕ) → Line

-- `unicodedata.bidirectional`, as far as it is looked at.
pub data Bidirectional : Type 0 where
  strong_r : Bidirectional
  strong_al : Bidirectional
  embed_rle : Bidirectional
  isolate_rli : Bidirectional
  strong_l : Bidirectional
  embed_lre : Bidirectional
  isolate_lri : Bidirectional
  other : Bidirectional

abbrev pub is_rtl : Bidirectional → Bool
is_rtl strong_r = true
is_rtl strong_al = true
is_rtl embed_rle = true
is_rtl isolate_rli = true
is_rtl _ = false

abbrev pub is_ltr : Bidirectional → Bool
is_ltr strong_l = true
is_ltr embed_lre = true
is_ltr isolate_lri = true
is_ltr _ = false

module _ (bidirectional : ℕ → Bidirectional) where
  -- Whether `_dominant_strong_direction` is "rtl".
  abbrev pub dominant_rtl : List ℕ → Bool
  dominant_rtl s =
      ltb (length (keep_if (λ c. is_ltr (bidirectional c)) s))
        (length (keep_if (λ c. is_rtl (bidirectional c)) s))

  -- Text from right to left is put between U+202B and U+202C.
  pub directed : List ℕ → List ℕ
  directed content = if dominant_rtl content then 8235 ∷ content ++ 8236 ∷ [] else content

  -- Whether the loop raises, and the subtitles, which keep what was written before it did.
  unfoldable pub process_translated_lines :
      List Line → List SubtitleObject → List (List ℕ) → Bool × List (List ℕ)
  unfolding directed
  process_translated_lines [] batch subtitles = (false, subtitles)
  process_translated_lines (incomplete ∷ lines) batch subtitles = (false, subtitles)
  process_translated_lines (unusable ∷ lines) batch subtitles = (true, subtitles)
  process_translated_lines (line index content ∷ lines) batch subtitles =
      let rest = process_translated_lines lines batch (set subtitles index (directed content)) in
      if any (λ x. x.index == index) batch then rest else (true, subtitles)
