-- ===== src/Bazarr/Item/Wait.antt =====
-- The wait of `process_one` for the file of an item: which result it ends with.
use mediahub_configs.Prelude.{
  ℕ, zero, suc, ◌+◌, ◌*◌, ◌≤◌, ◌<◌, ◌≡◌, ◌⊎◌, refl, ap, subst, ◌∙◌, Bool, true, false, Option, none,
  some, List, if◌then◌else◌, ltb, arith, Bool-cases, Option-cases, inl, inr, ◌==◌, ==_iff,
}
use mediahub_configs.Bazarr.Attempts.{Item}
use mediahub_configs.Bazarr.Paths.{Subtitle, build_es_target_path}
use mediahub_configs.Bazarr.Errors.{
  Category, rate_limited_error, permission_error, malformed_json, classify,
}
use mediahub_configs.Bazarr.Item.{
  Result, ok, fail, timeout, skip, rate_limited, permission, malformed, Outside, poll, poll_fuel,
  poll_timeout, poll_interval, result_of, translated, english_of, is_written, wanted_es,
}

module _ (parse_time : List ℕ → Option ℕ) (is_blank : List ℕ → Bool) where
  module _ (o : Outside) (path target : List ℕ) where
    -- What can be seen some seconds after the request.
    abbrev there : ℕ → Bool
    there seconds = is_written is_blank (o.file_at seconds target)

    abbrev said : ℕ → Option Category
    said seconds = classify parse_time o.request_time path (o.log_at seconds)

    -- Neither the file nor an error is seen at the looks before the `n`th.
    abbrev pub IsQuietBefore : ℕ → Type 0
    IsQuietBefore n = (j : ℕ) → 0 < j → j < n → (there (8 * j) ≡ false) × (said (8 * j) ≡ none)

    -- The error is the first that is seen, and the file is not there.
    abbrev pub IsStopped : Category → Type 0
    IsStopped c =
        (k : ℕ) × (0 < k)
        × (k ≤ 30)
        × IsQuietBefore k
        × (there (8 * k) ≡ false)
        × (said (8 * k) ≡ some c)

    pub IsWaitedFor : Result → Type 0
    IsWaitedFor ok = (k : ℕ) × (0 < k) × (k ≤ 30) × IsQuietBefore k × (there (8 * k) ≡ true)
    IsWaitedFor rate_limited = IsStopped rate_limited_error
    IsWaitedFor permission = IsStopped permission_error
    IsWaitedFor malformed = IsStopped malformed_json
    IsWaitedFor timeout = IsQuietBefore 31
    IsWaitedFor fail = ⊥
    IsWaitedFor skip = ⊥

    category_ends :
        (c : Category)
        → IsStopped c
        → (r : Result) × (elim c [
          | rate_limited_error ↦ some rate_limited
          | permission_error ↦ some permission
          | malformed_json ↦ some malformed
        ]
            ≡ some r)
          × IsWaitedFor r
    unfolding IsWaitedFor
    category_ends rate_limited_error h = (rate_limited, refl, h)
    category_ends permission_error h = (permission, refl, h)
    category_ends malformed_json h = (malformed, refl, h)

    IsQuietBefore-suc :
        (k now : ℕ)
        → now ≡ 8 * (k + 1)
        → IsQuietBefore (k + 1)
        → there now ≡ false
        → said now ≡ none
        → IsQuietBefore (k + 1 + 1)
    IsQuietBefore-suc k now at quiet c q j p l = elim (Bool-cases (ltb j (k + 1))) [
      | inl e ↦ quiet j p (ground (arith, e))
      | inr e ↦
          let same : now ≡ 8 * j = omega (arith, ltb-le j (k + 1) e) in
          (subst (λ t. there t ≡ false) same c, subst (λ t. said t ≡ none) same q)
    ]
      where
        ltb-le : (m n : ℕ) → ltb m n ≡ false → n ≤ m
        ltb-le m n e = ground (arith, e)

    -- `k` looks are done.
    poll_ends :
        (fuel waited k : ℕ)
        → k + fuel ≡ 31
        → k < 31
        → waited ≡ 8 * k
        → IsQuietBefore (k + 1)
        → (r : Result) × (poll parse_time is_blank fuel o path target waited ≡ some r)
          × IsWaitedFor r
    unfolding poll IsWaitedFor
    poll_ends zero waited k h b at quiet = absurd (omega arith)
    poll_ends (suc fuel) waited k h b at quiet =
        let now = waited + poll_interval in
        let next : now ≡ 8 * (k + 1) = omega arith in
        elim (Bool-cases (ltb waited poll_timeout)) [
          | inr e ↦
              let last : 240 ≤ waited = ground (arith, e) in
              (timeout, rw (e, poll) refl, λ j p l. quiet j p (omega arith))
          | inl e ↦
              let early : waited < 240 = ground (arith, e) in
              elim (Bool-cases (there now)) [
                | inl c ↦ (
                  ok,
                  rw (e, c, poll) refl,
                  (k + 1, omega arith, omega arith, quiet, subst (λ t. there t ≡ true) next c),
                )
                | inr c ↦ elim (Option-cases (said now)) [
                  | inl q ↦
                      let (r, ran, is) =
                        poll_ends fuel now (k + 1) (omega arith) (omega arith) next
                          (IsQuietBefore-suc k now next quiet c q) in
                      (r, rw (e, c, q, ran, poll) refl, is)
                  | inr (found, q) ↦
                      let (r, s, is) = category_ends found (
                        k + 1,
                        omega arith,
                        omega arith,
                        quiet,
                        subst (λ t. there t ≡ false) next c,
                        subst (λ t. said t ≡ some found) next q,
                      ) in
                      (r, rw (e, c, q, poll) s, is)
                ]
              ]
        ]

  -- The result of an item with this English subtitle, or without one.
  abbrev pub IsOutcomeOf : Item → Outside → Option Subtitle → Result → Type 0
  IsOutcomeOf item o english r =
      ((english ≡ none) × (r ≡ skip))
      ⊎ ((s : Subtitle) × (english ≡ some s)
          × (((¬ (o.patch_code ≡ 204)) × (r ≡ fail))
              ⊎ ((o.patch_code ≡ 204)
                  × IsWaitedFor o s.path
                      (build_es_target_path s.path (wanted_es item.missing_subtitles).0
                        (wanted_es item.missing_subtitles).1)
                      r)))

  abbrev pub IsOutcome : Item → Outside → Result → Type 0
  IsOutcome item o r = IsOutcomeOf item o (english_of o.detail) r

  translated_ends :
      (item : Item) (o : Outside) (s : Option Subtitle)
      → (r : Result) × (translated parse_time is_blank item o s ≡ some r) × IsOutcomeOf item o s r
  unfolding translated
  translated_ends item o none = (skip, refl, inl (refl, refl))
  translated_ends item o (some s) = elim (Bool-cases (o.patch_code == 204)) [
    | inr c ↦ (
      fail,
      rw (c, translated) refl,
      inr (s, refl, inl (λ e. cc ((==_iff o.patch_code 204).1 e, c), refl)),
    )
    | inl c ↦
        let wanted = wanted_es item.missing_subtitles in
        let target = build_es_target_path s.path wanted.0 wanted.1 in
        let (r, ran, is) =
          poll_ends o s.path target poll_fuel 0 0 (omega arith) (omega arith) (omega arith)
            (λ j p l. absurd (omega arith)) in
        (
          r,
          ap (λ c. if c then poll parse_time is_blank poll_fuel o s.path target 0 else some fail) c
              ∙ ran,
          inr (s, refl, inr ((==_iff o.patch_code 204).0 c, is)),
        )
  ]

  pub result_of_ends :
      (item : Item) (o : Outside)
      → (r : Result) × (result_of parse_time is_blank item o ≡ some r) × IsOutcome item o r
  unfolding result_of
  result_of_ends item o = translated_ends item o (english_of o.detail)
