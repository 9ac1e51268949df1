-- ===== src/Bazarr/Run/Stops.antt =====
-- A run ends, and where it is ended early.
use mediahub_configs.Prelude.{
  ℕ, ◌<◌, ◌≡◌, ◌≢◌, refl, sym, ap, subst, ◌∙◌, Option, none, some, List, [], ◌∷◌, leb, arith,
  Bool-cases, inl, inr,
}
use mediahub_configs.Bazarr.Attempts.{Kind, episode, movie, Files, Item}
use mediahub_configs.Bazarr.Item.{Result}
use mediahub_configs.Bazarr.Item.Outcome.{process_one_lem}
use mediahub_configs.Bazarr.Run.Streaks.{
  streak_after, GoesOn, EndsAs, streak_after-snoc, GoesOn-snoc, streak-le, GoesOn-streak_after,
  limit_reached,
}
use mediahub_configs.Bazarr.Run.{
  consecutive_failure_limit, Ended, completed, quota, failures, Run, World, streak, with_result,
  stopped_by_quota, stopped_by_failures, is_rate_limited, run_items, after_item, worklist,
  movies_after, is_cooling_down, first_run, run_main,
}

quota_ne : quota ≢ completed
quota_ne e = cc

failures_ne : failures ≢ completed
failures_ne e = cc

module _ (w : World) where
  -- A run that goes on, and one that has ended.
  IsGoing : Run → Type 0
  IsGoing run =
      (run.ended ≡ completed)
      × ((run.consecutive ≡ streak_after 0 run.results) × GoesOn 0 run.results)

  pub record IsEnded (f : Files) (run : Run) : Type 0 where
    pub ends_as : EndsAs run.ended run.results
    pub cooldown : run.files.cooldown_until ≡ (elim run.ended [
      | quota ↦ some w.next_quota_reset
      | completed ↦ f.cooldown_until
      | failures ↦ f.cooldown_until
    ])

  Reaches : Files → Option Run → Type 0
  Reaches f o =
      (run : Run) × ((o ≡ some run) × (IsEnded f run × ((run.ended ≡ completed) → IsGoing run)))

  going-IsEnded :
      (f : Files) (run : Run)
      → IsGoing run
      → run.files.cooldown_until ≡ f.cooldown_until
      → IsEnded f run
  unfolding IsGoing
  going-IsEnded f run h c = record {
    ends_as = subst (λ e. EndsAs e run.results) (sym h.0) h.1.1;
    cooldown =
        c
        ∙ ap
            (λ e. elim e [
              | quota ↦ some w.next_quota_reset
              | completed ↦ f.cooldown_until
              | failures ↦ f.cooldown_until
            ])
            (sym h.0);
  }

  after_item-Reaches :
      (f g : Files) (kind : Kind) (item : Item) (r : Result) (run : Run) (rest : Option Run)
      → IsGoing run
      → g.cooldown_until ≡ f.cooldown_until
      → (IsGoing (with_result kind item r g run) → Reaches f rest)
      → Reaches f (after_item w r (with_result kind item r g run) rest)
  unfolding after_item IsGoing Reaches
  after_item-Reaches f g kind item r run rest h c later =
      let next = with_result kind item r g run in
      let x : Kind × (ℕ × Result) = (kind, (item.id, r)) in
      let counted_on : next.consecutive ≡ streak_after 0 next.results =
        ap (streak r) h.1.0 ∙ sym (streak_after-snoc 0 run.results x) in
      elim (Bool-cases (is_rate_limited r)) [
        | inl e ↦
            let ended : IsEnded f (stopped_by_quota w next) = record {
              ends_as = (run.results, (x, (refl, (e, h.1.1))));
              cooldown = refl;
            } in
            (stopped_by_quota w next, (rw (e, after_item) refl, (ended, λ q. absurd (quota_ne q))))
        | inr e ↦ elim (Bool-cases (leb consecutive_failure_limit next.consecutive)) [
          | inl l ↦
              let full : streak_after 0 next.results ≡ consecutive_failure_limit = omega (
                arith,
                streak_after-snoc 0 run.results x,
                streak-le r (streak_after 0 run.results),
                GoesOn-streak_after 0 run.results (omega arith) h.1.1,
                limit_reached next.consecutive l,
                counted_on,
              ) in
              let ended : IsEnded f (stopped_by_failures next) = record {
                ends_as = (run.results, (x, (refl, (full, h.1.1))));
                cooldown = c;
              } in
              (
                stopped_by_failures next,
                (rw (e, l, after_item) refl, (ended, λ q. absurd (failures_ne q))),
              )
          | inr l ↦
              let below : streak r (streak_after 0 run.results) < consecutive_failure_limit =
                ground (arith, l, h.1.0) in
              let (last, found) =
                later (h.0, (counted_on, GoesOn-snoc 0 run.results x h.1.1 e below)) in
              (last, (rw (e, l, after_item) found.0, found.1))
        ]
      ]

  run_items-Reaches :
      (f : Files) (kind : Kind) (items : List Item) (run : Run)
      → IsGoing run
      → run.files.cooldown_until ≡ f.cooldown_until
      → Reaches f (run_items w kind items run)
  unfolding run_items Reaches
  run_items-Reaches f kind [] run h c = (run, (refl, (going-IsEnded f run h c, λ e. h)))
  run_items-Reaches f kind (item ∷ items) run h c =
      let (r, g, ran, same, count, outcome) =
        process_one_lem w.parse_time w.is_blank kind item (w.outside kind item) run.files in
      let next = with_result kind item r g run in
      let rest = run_items w kind items next in
      let step : run_items w kind (item ∷ items) run ≡ after_item w r next rest =
        ap
          (λ o. elim o [
            | none ↦ none
            | some (q, k) ↦
                let following = with_result kind item q k run in
                after_item w q following (run_items w kind items following)
          ])
          ran in
      subst (Reaches f) (sym step) (
        after_item-Reaches f g kind item r run rest h (same ∙ c)
          (λ going. run_items-Reaches f kind items next going (same ∙ c)))

  cooldown_kept :
      (f : Files) (run : Run)
      → IsEnded f run
      → run.ended ≡ completed
      → run.files.cooldown_until ≡ f.cooldown_until
  cooldown_kept f run h q =
      h.cooldown
      ∙ ap
          (λ e. elim e [
            | quota ↦ some w.next_quota_reset
            | completed ↦ f.cooldown_until
            | failures ↦ f.cooldown_until
          ])
          q

  Finishes : Files → Option Run → Type 0
  Finishes f o = (last : Run) × ((o ≡ some last) × IsEnded f last)

  movies_after-Finishes :
      (f : Files) (run : Run) (e : Ended)
      → run.ended ≡ e
      → IsEnded f run
      → ((run.ended ≡ completed) → IsGoing run)
      → Finishes f (movies_after w e run)
  unfolding Reaches Finishes
  movies_after-Finishes f run completed q h going =
      let (last, reached) =
        run_items-Reaches f movie (worklist w movie run) run (going q) (cooldown_kept f run h q) in
      (last, (reached.0, reached.1.0))
  movies_after-Finishes f run quota q h going = (run, (refl, h))
  movies_after-Finishes f run failures q h going = (run, (refl, h))

  first_run-IsGoing : (f : Files) → IsGoing (first_run f)
  unfolding IsGoing
  first_run-IsGoing f = (refl, (refl, tt))

-- A run ends. If it is not ended early, none of its results says that the quota is used up, and no five
-- failures are in a row. If the quota ended it, its last result is the only one that says so, and the
-- cooldown is set to the next reset; if failures did, its last result is the fifth failure in a row, and
-- there were no five in a row before. Else the cooldown stays as it was.
pub run_main-IsEnded :
    (w : World) (now : ℕ) (f : Files)
    → (run : Run) × ((run_main w now f ≡ some run) × IsEnded w f run)
unfolding run_main Reaches Finishes
run_main-IsEnded w now f =
    let started = first_run f in
    let going = first_run-IsGoing w f in
    elim (Bool-cases (is_cooling_down now f.cooldown_until)) [
      | inl e ↦ (started, (rw (e, run_main) refl, going-IsEnded w f started going refl))
      | inr e ↦
          let (run, reached) =
            run_items-Reaches w f episode (worklist w episode started) started going refl in
          let (last, finished) =
            movies_after-Finishes w f run run.ended refl reached.1.0 reached.1.1 in
          (last, (rw (e, reached.0, run_main) finished.0, finished.1))
    ]
