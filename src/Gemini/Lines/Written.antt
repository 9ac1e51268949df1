-- ===== src/Gemini/Lines/Written.antt =====
-- What `_process_translated_lines` writes.
use mediahub_configs.Prelude.{
  ℕ, ◌<◌, ◌≡◌, refl, sym, ◌∙◌, ◌⊎◌, inl, inr, true, false, Option, some, List, [], ◌∷◌, length, any,
  set, get_elem?, ◌∈◌, arith, All, Bool-cases, mem_of_any, any_of_mem, ◌==◌, ==_iff, length-set,
  get_elem?-set, subst, get_elem?-set_ne, ap, zero, suc, All-mem,
}
use mediahub_configs.Gemini.Lines.{
  SubtitleObject, Line, incomplete, unusable, line, Bidirectional, directed,
  process_translated_lines,
}

-- A subtitle of the batch has the index.
abbrev pub IsIndexed : ℕ → List SubtitleObject → Type 0
IsIndexed i batch = (x : SubtitleObject) × (x ∈ batch) × (x.index ≡ i)

any-IsIndexed :
    (i : ℕ) (batch : List SubtitleObject) → any (λ x. x.index == i) batch ≡ true → IsIndexed i batch
any-IsIndexed i batch h =
    let (x, m, p) = mem_of_any (λ x. x.index == i) batch h in (x, m, (==_iff x.index i).0 p)

IsIndexed-any :
    (i : ℕ) (batch : List SubtitleObject) → IsIndexed i batch → any (λ x. x.index == i) batch ≡ true
IsIndexed-any i batch (x, m, p) = any_of_mem x (λ x. x.index == i) batch m ((==_iff x.index i).1 p)

abbrev index_of : Line → ℕ
index_of incomplete = 0
index_of unusable = 0
index_of (line i content) = i

abbrev content_of : Line → List ℕ
content_of incomplete = []
content_of unusable = []
content_of (line i content) = content

set-cases :
    {A : Type 0} (xs : List A) (j i : ℕ) (v : A)
    → (get_elem? (set xs j v) i ≡ get_elem? xs i) ⊎ ((i ≡ j) × (get_elem? (set xs j v) i ≡ some v))
set-cases [] j i v = inl refl
set-cases (x ∷ xs) zero zero v = inr (refl, refl)
set-cases (x ∷ xs) zero (suc i) v = inl refl
set-cases (x ∷ xs) (suc j) zero v = inl refl
set-cases (x ∷ xs) (suc j) (suc i) v = elim (set-cases xs j i v) [
  | inl same ↦ inl same
  | inr (p, q) ↦ inr (ap suc p, q)
]

-- A line as asked for: its index is one of the batch's.
abbrev pub IsAnswer : List SubtitleObject → Line → Type 0
IsAnswer batch incomplete = ⊥
IsAnswer batch unusable = ⊥
IsAnswer batch (line i content) = IsIndexed i batch

abbrev pub HasIndex : ℕ → Line → Type 0
HasIndex i incomplete = ⊥
HasIndex i unusable = ⊥
HasIndex i (line j content) = i ≡ j

-- No two lines have the same index.
abbrev pub HaveDistinctIndices : List Line → Type 0
HaveDistinctIndices [] = Unit
HaveDistinctIndices (incomplete ∷ lines) = HaveDistinctIndices lines
HaveDistinctIndices (unusable ∷ lines) = HaveDistinctIndices lines
HaveDistinctIndices (line i content ∷ lines) =
    All (λ x. ¬ HasIndex i x) lines × HaveDistinctIndices lines

module _ (bidirectional : ℕ → Bidirectional) where
  pub length-process_translated_lines :
      (lines : List Line) (batch : List SubtitleObject) (subtitles : List (List ℕ))
      → length (process_translated_lines bidirectional lines batch subtitles).1 ≡ length subtitles
  unfolding process_translated_lines
  length-process_translated_lines [] batch subtitles = refl
  length-process_translated_lines (incomplete ∷ lines) batch subtitles = refl
  length-process_translated_lines (unusable ∷ lines) batch subtitles = refl
  length-process_translated_lines (line i content ∷ lines) batch subtitles =
      let to = directed bidirectional content in
      ground (
        arith,
        length-process_translated_lines lines batch (set subtitles i to),
        length-set subtitles i to,
      )

  -- The content at `i` is as before, or that of a line for `i`, which the batch asked for.
  abbrev pub IsWritten :
      List Line → List SubtitleObject → ℕ → Option (List ℕ) → Option (List ℕ) → Type 0
  IsWritten lines batch i before after =
      (after ≡ before)
      ⊎ (IsIndexed i batch
          × ((content : List ℕ) × (line i content ∈ lines)
              × (after ≡ some (directed bidirectional content))))

  pub process_translated_lines-IsWritten :
      (lines : List Line) (batch : List SubtitleObject) (subtitles : List (List ℕ)) (i : ℕ)
      → IsWritten lines batch i
          (get_elem? subtitles i)
          (get_elem? (process_translated_lines bidirectional lines batch subtitles).1 i)
  unfolding process_translated_lines
  process_translated_lines-IsWritten [] batch subtitles i = inl refl
  process_translated_lines-IsWritten (incomplete ∷ lines) batch subtitles i = inl refl
  process_translated_lines-IsWritten (unusable ∷ lines) batch subtitles i = inl refl
  process_translated_lines-IsWritten (line j content ∷ lines) batch subtitles i =
      elim (Bool-cases (any (λ x. x.index == j) batch)) [
        | inl e ↦
            rw e (older e (process_translated_lines-IsWritten lines batch (set subtitles j to) i))
        | inr e ↦ rw e (inl refl)
      ]
    where
      to : List ℕ
      to = directed bidirectional content

      after : Option (List ℕ)
      after =
          get_elem? (process_translated_lines bidirectional lines batch (set subtitles j to)).1 i

      older :
          any (λ x. x.index == j) batch ≡ true
          → IsWritten lines batch i (get_elem? (set subtitles j to) i) after
          → IsWritten (line j content ∷ lines) batch i (get_elem? subtitles i) after
      older e (inr (x, (c, m, q))) = inr (x, (c, inr m, q))
      older e (inl same) = elim (set-cases subtitles j i to) [
        | inl kept ↦ inl (same ∙ kept)
        | inr (p, q) ↦
            inr (
              rw p (any-IsIndexed j batch e),
              (content, inl (ap (λ k. line k content) p), same ∙ q),
            )
      ]

  -- Lines without an index leave it as it is.
  process_translated_lines-kept :
      (lines : List Line) (batch : List SubtitleObject) (subtitles : List (List ℕ)) (i : ℕ)
      → All (λ x. ¬ HasIndex i x) lines
      → get_elem? (process_translated_lines bidirectional lines batch subtitles).1 i
        ≡ get_elem? subtitles i
  unfolding process_translated_lines
  process_translated_lines-kept [] batch subtitles i h = refl
  process_translated_lines-kept (incomplete ∷ lines) batch subtitles i h = refl
  process_translated_lines-kept (unusable ∷ lines) batch subtitles i h = refl
  process_translated_lines-kept (line j content ∷ lines) batch subtitles i h =
      let to = directed bidirectional content in
      ground (
        arith,
        process_translated_lines-kept lines batch (set subtitles j to) i h.1,
        get_elem?-set_ne subtitles j i to (λ e. h.0 (sym e)),
      )

  -- An answer with each line as asked for and none twice does not make the loop raise, and each of
  -- its lines is written.
  pub process_translated_lines-answers :
      (lines : List Line) (batch : List SubtitleObject) (subtitles : List (List ℕ))
      → All (IsAnswer batch) lines
      → HaveDistinctIndices lines
      → All (λ x. x.index < length subtitles) batch
      → ((process_translated_lines bidirectional lines batch subtitles).0 ≡ false)
        × ((i : ℕ) (content : List ℕ)
            → line i content ∈ lines
            → get_elem? (process_translated_lines bidirectional lines batch subtitles).1 i
              ≡ some (directed bidirectional content))
  unfolding process_translated_lines
  process_translated_lines-answers [] batch subtitles a d fits = (refl, λ i c m. absurd m)
  process_translated_lines-answers (incomplete ∷ lines) batch subtitles a d fits = absurd a.0
  process_translated_lines-answers (unusable ∷ lines) batch subtitles a d fits = absurd a.0
  process_translated_lines-answers (line j content ∷ lines) batch subtitles a d fits =
      let to = directed bidirectional content in
      let (x, m, p) = a.0 in
      let inside = All-mem (λ y. y.index < length subtitles) x batch fits m in
      let rest =
        process_translated_lines-answers lines batch (set subtitles j to) a.1 d.1
          (rw (length-set subtitles j to) fits) in
      let listed = IsIndexed-any j batch a.0 in
      (
        rw listed rest.0,
        λ i c n. rw listed (elim n [
          | inl e ↦
              rw (ap index_of e, ap content_of e)
                (process_translated_lines-kept lines batch (set subtitles j to) j d.0
                  ∙ get_elem?-set subtitles j to (subst (λ k. k < length subtitles) p inside))
          | inr later ↦ rest.1 i c later
        ]),
      )
