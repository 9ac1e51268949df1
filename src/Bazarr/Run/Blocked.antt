-- ===== src/Bazarr/Run/Blocked.antt =====
-- Items that have failed too often are left alone.
use mediahub_configs.Prelude.{
  ℕ, ◌≤◌, ◌≡◌, sym, ap, subst, false, Option, none, some, List, [], ◌∷◌, leb, arith, Bool-cases,
  inl, inr, All, All-append, All-map, Option-cases, All-of_mem, mem-keep_if,
}
use mediahub_configs.Bazarr.Attempts.{
  Kind, episode, movie, Attempts, Files, Item, is_blocked, counted, load_attempts, get_wanted,
}
use mediahub_configs.Bazarr.Item.{Result}
use mediahub_configs.Bazarr.Item.Outcome.{process_one_lem}
use mediahub_configs.Bazarr.Run.{
  Ended, completed, quota, failures, Run, World, with_result, is_rate_limited, run_items,
  after_item, worklist, movies_after, is_cooling_down, first_run, run_main, stopped_by_quota,
  stopped_by_failures, consecutive_failure_limit,
}

fewer_attempts :
    (kind : Kind) (a b : Attempts) (i : ℕ)
    → counted kind i a ≤ counted kind i b
    → is_blocked kind b i ≡ false
    → is_blocked kind a i ≡ false
fewer_attempts kind a b i h k = ground arith

get_wanted-All :
    (kind : Kind) (a : Attempts) (items : List Item)
    → All (λ item. is_blocked kind a item.id ≡ false) (get_wanted kind a items)
unfolding get_wanted
get_wanted-All kind a items =
    All-of_mem (λ item. is_blocked kind a item.id ≡ false) (get_wanted kind a items)
      (λ item m. let (_, wanted) = mem-keep_if item _ items m in ground (arith, wanted))

module _ (w : World) (f : Files) where
  -- No item of the run was blocked when it began, and no count has gone down since.
  IsMild : Run → Type 0
  IsMild run =
      All (λ x. is_blocked x.0 (load_attempts f) x.1.0 ≡ false) run.results
      × ((k : Kind) (i : ℕ) → counted k i (load_attempts f) ≤ counted k i (load_attempts run.files))

  StaysMild : Option Run → Type 0
  StaysMild o = (last : Run) → o ≡ some last → IsMild last

  some-StaysMild : (run : Run) → IsMild run → StaysMild (some run)
  unfolding StaysMild
  some-StaysMild run h = λ last e. let same : run ≡ last = cc e in subst IsMild same h

  after_item-StaysMild :
      (r : Result) (next : Run) (rest : Option Run)
      → IsMild next
      → StaysMild rest
      → StaysMild (after_item w r next rest)
  unfolding after_item StaysMild IsMild
  after_item-StaysMild r next rest h later last e = elim (Bool-cases (is_rate_limited r)) [
    | inl q ↦
        let same : stopped_by_quota w next ≡ last = cc (rw (q, after_item) at e) in
        subst IsMild same h
    | inr q ↦ elim (Bool-cases (leb consecutive_failure_limit next.consecutive)) [
      | inl l ↦
          let same : stopped_by_failures next ≡ last = cc (rw (q, l, after_item) at e) in
          subst IsMild same h
      | inr l ↦ later last (rw (q, l, after_item) at e)
    ]
  ]

  run_items-StaysMild :
      (kind : Kind) (items : List Item) (run : Run)
      → All (λ item. is_blocked kind (load_attempts f) item.id ≡ false) items
      → IsMild run
      → StaysMild (run_items w kind items run)
  unfolding run_items IsMild
  run_items-StaysMild kind [] run free h = some-StaysMild run h
  run_items-StaysMild kind (item ∷ items) run free h =
      let (r, g, ran, same, count, outcome) =
        process_one_lem w.parse_time w.is_blank kind item (w.outside kind item) run.files in
      let next = with_result kind item r g run in
      let x : Kind × (ℕ × Result) = (kind, (item.id, r)) in
      let grown : (k : Kind) (i : ℕ)
          → counted k i (load_attempts f) ≤ counted k i (load_attempts g) =
        λ k i. omega (arith, h.1 k i, count k i) in
      let mild : IsMild next = (
        All-append (λ y. is_blocked y.0 (load_attempts f) y.1.0 ≡ false) run.results (x ∷ []) h.0
            (free.0, tt),
        grown,
      ) in
      let rest = run_items w kind items next in
      let step : run_items w kind (item ∷ items) run ≡ after_item w r next rest =
        ap
          (λ o. elim o [
            | none ↦ none
            | some (q, k) ↦
                let following = with_result kind item q k run in
                after_item w q following (run_items w kind items following)
          ])
          ran in
      subst StaysMild (sym step)
        (after_item-StaysMild r next rest mild (run_items-StaysMild kind items next free.1 mild))

  movies_after-StaysMild : (e : Ended) (run : Run) → IsMild run → StaysMild (movies_after w e run)
  unfolding IsMild
  movies_after-StaysMild completed run h =
      let wanted = worklist w movie run in
      let free : All (λ item. is_blocked movie (load_attempts f) item.id ≡ false) wanted =
        All-map (λ item. is_blocked movie (load_attempts run.files) item.id ≡ false)
          (λ item. is_blocked movie (load_attempts f) item.id ≡ false)
          (λ item e.
            fewer_attempts movie (load_attempts f) (load_attempts run.files) item.id
              (h.1 movie item.id) e)
          wanted (get_wanted-All movie (load_attempts run.files) (w.listed movie)) in
      run_items-StaysMild movie wanted run free h
  movies_after-StaysMild quota run h = some-StaysMild run h
  movies_after-StaysMild failures run h = some-StaysMild run h

-- A run leaves alone the items of which two failures had been recorded when it began.
pub run_main-is_blocked :
    (w : World) (now : ℕ) (f : Files) (run : Run)
    → run_main w now f ≡ some run
    → All (λ x. is_blocked x.0 (load_attempts f) x.1.0 ≡ false) run.results
unfolding run_main StaysMild IsMild
run_main-is_blocked w now f run h =
    let started = first_run f in
    let mild : IsMild w f started = (tt, λ k i. omega arith) in
    let wanted = worklist w episode started in
    let free = get_wanted-All episode (load_attempts f) (w.listed episode) in
    elim (Bool-cases (is_cooling_down now f.cooldown_until)) [
      | inl e ↦ (some-StaysMild w f started mild run (rw (e, run_main) at h)).0
      | inr e ↦ elim (Option-cases (run_items w episode wanted started)) [
        | inl q ↦ absurd (cc (rw (e, q, run_main) at h))
        | inr (first, q) ↦
            let first_mild = run_items-StaysMild w f episode wanted started free mild first q in
            (movies_after-StaysMild w f first.ended first first_mild run
              (rw (e, q, run_main) at h)).0
      ]
    ]
