-- ===== src/LiveTv/Playlist/Publish.antt =====
-- What the playlist holds, and when it is published.
use mediahub_configs.Prelude.{
  ℕ, ◌+◌, ◌<◌, ◌≤◌, ◌≡◌, ◌≢◌, ◌⊎◌, refl, sym, ap, subst, ◌∙◌, Bool, true, false, Option, some, List,
  [], ◌∷◌, ◌++◌, if◌then◌else◌, ltb, any, length, keep_if, keep_if-kept, keep_if-dropped, concat,
  All, All-append, arith, Bool-cases, inl, inr, ◌==◌,
}
use mathlib.Core.List.{append-nil, append_assoc}
use mediahub_configs.Prelude.Text.{split_on, ended_by, split_on-ended_by, IsWithout}
use mediahub_configs.Prelude.Codes.{codes}
use mediahub_configs.LiveTv.Playlist.{
  Stream, Setting, Playlist, min_channels, group_of, is_kept, extinf_line, url_line, extinf_parts,
  url_parts, with_stream, with_channel, playlist_from, playlist_of, publish, epg_id_of, logo_of,
}

pub IsWithout-any : (c : ℕ) (xs : List ℕ) → any (λ x. x == c) xs ≡ false → IsWithout c xs
IsWithout-any c [] h = tt
IsWithout-any c (x ∷ xs) h = (ground (arith, h), IsWithout-any c xs (ground (arith, h)))

IsWithout-concat :
    (c : ℕ) (parts : List (List ℕ)) → All (IsWithout c) parts → IsWithout c (concat parts)
IsWithout-concat c [] h = tt
IsWithout-concat c (part ∷ parts) h =
    All-append (λ x. x ≢ c) part (concat parts) h.0 (IsWithout-concat c parts h.1)

module _ (s : Setting) (categories : List (List ℕ × List ℕ)) where
  abbrev pub kept_of : List Stream → List Stream
  kept_of streams = keep_if (is_kept s categories) streams

  -- The lines of the channels: two for each.
  abbrev pub lines_of : List Stream → List (List ℕ)
  lines_of [] = []
  lines_of (stream ∷ streams) =
      extinf_line s categories stream ∷ url_line s categories stream ∷ lines_of streams

  -- No value that is written has a line end in it.
  pub record IsOneLine (stream : Stream) : Type 0 where
    pub name : IsWithout 10 stream.name
    pub stream_id : IsWithout 10 stream.stream_id
    pub logo : IsWithout 10 (logo_of s stream)
    pub epg_id : IsWithout 10 (epg_id_of s stream)
    pub group : IsWithout 10 (group_of s categories stream)

  -- How a playlist goes on from another one, with some channels and a number of streams.
  Continues : Playlist → List Stream → ℕ → Playlist → Type 0
  Continues p kept n q =
      (q.text ≡ p.text ++ ended_by 10 (lines_of kept))
      × ((q.kept ≡ p.kept + length kept) × (q.kept + q.skipped ≡ p.kept + p.skipped + n))

  written_lines :
      (front a b rest : List ℕ)
      → front ++ (a ++ 10 ∷ []) ++ (b ++ 10 ∷ []) ++ rest
        ≡ front ++ (a ++ (10 ∷ (b ++ (10 ∷ rest))))
  written_lines front a b rest =
      let more = b ++ 10 ∷ [] in
      append_assoc (front ++ (a ++ 10 ∷ [])) more rest
      ∙ (append_assoc front (a ++ 10 ∷ []) (more ++ rest)
          ∙ ap (λ l. front ++ l)
              (append_assoc a (10 ∷ []) (more ++ rest)
                ∙ ap (λ l. a ++ (10 ∷ l)) (append_assoc b (10 ∷ []) rest)))

  playlist_from_lem :
      (p : Playlist) (streams : List Stream)
      → Continues p (kept_of streams) (length streams) (playlist_from s categories p streams)
  unfolding playlist_from with_stream Continues
  playlist_from_lem p [] = (sym (append-nil p.text), (omega arith, omega arith))
  playlist_from_lem p (stream ∷ streams) =
      let skipped_one : Playlist = record {
        text = p.text;
        kept = p.kept;
        skipped = p.skipped + 1;
      } in
      let next = with_channel s categories p stream in
      let chosen : Bool → Playlist = λ c. if c then next else skipped_one in
      let kept = kept_of streams in
      elim (Bool-cases (is_kept s categories stream)) [
        | inl e ↦
            let (text, counts) = playlist_from_lem next streams in
            let line = extinf_line s categories stream in
            let url = url_line s categories stream in
            let all : kept_of (stream ∷ streams) ≡ stream ∷ kept =
              keep_if-kept (is_kept s categories) stream streams e in
            subst
              (λ q.
                Continues p (kept_of (stream ∷ streams)) (length (stream ∷ streams))
                  (playlist_from s categories q streams))
              (sym (ap chosen e))
              (subst
                (λ l.
                  Continues p l (length (stream ∷ streams))
                    (playlist_from s categories next streams))
                (sym all)
                (
                  text ∙ written_lines p.text line url (ended_by 10 (lines_of kept)),
                  (omega (arith, counts.0), omega (arith, counts.1)),
                ))
        | inr e ↦
            let (text, counts) = playlist_from_lem skipped_one streams in
            let all : kept_of (stream ∷ streams) ≡ kept =
              keep_if-dropped (is_kept s categories) stream streams e in
            subst
              (λ q.
                Continues p (kept_of (stream ∷ streams)) (length (stream ∷ streams))
                  (playlist_from s categories q streams))
              (sym (ap chosen e))
              (subst
                (λ l.
                  Continues p l (length (stream ∷ streams))
                    (playlist_from s categories skipped_one streams))
                (sym all) (text, (omega (arith, counts.0), omega (arith, counts.1))))
      ]

  extinf_line-IsWithout :
      (stream : Stream) → IsOneLine stream → IsWithout 10 (extinf_line s categories stream)
  extinf_line-IsWithout stream h =
      let literal = IsWithout-any 10 in
      IsWithout-concat 10 (extinf_parts s categories stream) (
        literal (codes "#EXTINF:-1 tvg-id=\"") refl,
        (
          h.epg_id,
          (
            literal (codes "\" tvg-name=\"") refl,
            (
              h.name,
              (
                literal (codes "\" tvg-logo=\"") refl,
                (
                  h.logo,
                  (
                    literal (codes "\" group-title=\"") refl,
                    (h.group, (literal (codes "\",") refl, (h.name, tt))),
                  ),
                ),
              ),
            ),
          ),
        ),
      )

  url_line-IsWithout :
      (stream : Stream)
      → IsWithout 10 s.username
      → IsWithout 10 s.password
      → IsOneLine stream
      → IsWithout 10 (url_line s categories stream)
  url_line-IsWithout stream user password h =
      let literal = IsWithout-any 10 in
      let slash = literal (codes "/") refl in
      IsWithout-concat 10 (url_parts s categories stream) (
        literal (codes "http://link4tv.cc:80/") refl,
        (user, (slash, (password, (slash, (h.stream_id, (literal (codes ".ts") refl, tt)))))),
      )

  lines_of-IsWithout :
      (streams : List Stream)
      → IsWithout 10 s.username
      → IsWithout 10 s.password
      → All IsOneLine streams
      → All (IsWithout 10) (lines_of streams)
  lines_of-IsWithout [] user password h = tt
  lines_of-IsWithout (stream ∷ streams) user password h = (
    extinf_line-IsWithout stream h.0,
    (url_line-IsWithout stream user password h.0, lines_of-IsWithout streams user password h.1),
  )

-- If no value has a line end in it, the lines of the playlist are the header and two for each channel
-- that is taken, in the order of the streams.
split_on-playlist_of :
    (s : Setting) (categories : List (List ℕ × List ℕ)) (streams : List Stream)
    → IsWithout 10 s.username
    → IsWithout 10 s.password
    → All (IsOneLine s categories) (kept_of s categories streams)
    → split_on 10 (playlist_of s categories streams).text
      ≡ codes "#EXTM3U" ∷ lines_of s categories (kept_of s categories streams) ++ [] ∷ []
unfolding playlist_of Continues
split_on-playlist_of s categories streams user password h =
    let kept = kept_of s categories streams in
    let start : Playlist = record { text = codes "#EXTM3U\n"; kept = 0; skipped = 0 } in
    let (text, _) = playlist_from_lem s categories start streams in
    let lines = codes "#EXTM3U" ∷ lines_of s categories kept in
    ap (split_on 10) text
    ∙ split_on-ended_by 10 lines (
      IsWithout-any 10 (codes "#EXTM3U") refl,
      lines_of-IsWithout s categories kept user password h,
    )

-- Each stream is kept or skipped. With fewer than a hundred channels the run is aborted and the file
-- stays as it was, also if there was none; with a hundred or more it is the playlist.
pub publish_lem :
    (s : Setting) (categories : List (List ℕ × List ℕ)) (output : Option (List ℕ))
    (streams : List Stream)
    → let p = playlist_of s categories streams in
      let kept = length (kept_of s categories streams) in
      (kept + p.skipped ≡ length streams)
      × (((kept < 100) × (publish s categories output streams ≡ (output, true)))
          ⊎ ((100 ≤ kept) × (publish s categories output streams ≡ (some p.text, false))))
unfolding publish playlist_of Continues
publish_lem s categories output streams =
    let start : Playlist = record { text = codes "#EXTM3U\n"; kept = 0; skipped = 0 } in
    let (_, counts) = playlist_from_lem s categories start streams in
    let p = playlist_of s categories streams in
    (
      omega (arith, counts.0, counts.1),
      elim (Bool-cases (ltb p.kept min_channels)) [
        | inl e ↦ inl (ground (arith, e, counts.0), rw (e, publish) refl)
        | inr e ↦ inr (ground (arith, e, counts.0), rw (e, publish) refl)
      ],
    )
