-- ===== src/Bazarr/Run.antt =====
-- `main`: the items of both kinds, until the quota is used up or too many fail in a row.
pub mod Streaks
pub mod Stops
pub mod Blocked
use mediahub_configs.Prelude.{
  ℕ, zero, suc, ◌+◌, ◌≡◌, refl, Bool, true, false, not, ◌&&◌, Option, none, some, List, [], ◌∷◌,
  ◌++◌, if◌then◌else◌, ltb, leb,
}
use mediahub_configs.Bazarr.Attempts.{
  Kind, episode, movie, Attempts, Files, load_attempts, Item, get_wanted,
}
use mediahub_configs.Bazarr.Item.{
  Result, ok, fail, timeout, skip, rate_limited, permission, malformed, Outside, process_one,
}

abbrev pub consecutive_failure_limit : ℕ
consecutive_failure_limit = 5

-- The results that count for the limit.
abbrev pub is_failure : Result → Bool
is_failure fail = true
is_failure timeout = true
is_failure malformed = true
is_failure permission = true
is_failure _ = false

pub data Ended : Type 0 where
  completed quota failures : Ended

-- A run so far: the files, the results of its items, the failures at their end, and whether it stopped.
pub record Run : Type 0 where
  pub files : Files
  pub results : List (Kind × (ℕ × Result))
  pub consecutive : ℕ
  pub ended : Ended

-- What is outside of a run: the items that the API lists, what comes of each, and the next reset of the
-- quota as it is computed after the item with that number.
pub record World : Type 0 where
  pub parse_time : List ℕ → Option ℕ
  pub is_blank : List ℕ → Bool
  pub listed : Kind → List Item
  pub outside : Kind → Item → Outside
  pub next_quota_reset : ℕ

abbrev pub streak : Result → ℕ → ℕ
streak r n = if is_failure r then n + 1 else 0

abbrev pub with_result : Kind → Item → Result → Files → Run → Run
with_result kind item r f run = record {
  files = f;
  results = run.results ++ (kind, (item.id, r)) ∷ [];
  consecutive = streak r run.consecutive;
  ended = run.ended;
}

abbrev pub stopped_by_failures : Run → Run
stopped_by_failures run = record {
  files = run.files;
  results = run.results;
  consecutive = run.consecutive;
  ended = failures;
}

abbrev pub is_rate_limited : Result → Bool
is_rate_limited rate_limited = true
is_rate_limited _ = false

abbrev pub is_cooling_down : ℕ → Option ℕ → Bool
is_cooling_down now none = false
is_cooling_down now (some until) = ltb now until

abbrev pub first_run : Files → Run
first_run f = record { files = f; results = []; consecutive = 0; ended = completed }

module _ (w : World) where
  abbrev pub stopped_by_quota : Run → Run
  stopped_by_quota run = record {
    files = record { attempts = run.files.attempts; cooldown_until = some w.next_quota_reset };
    results = run.results;
    consecutive = run.consecutive;
    ended = quota;
  }

  -- What follows on an item, with the run of the items behind it.
  unfoldable pub after_item : Result → Run → Option Run → Option Run
  after_item r next rest =
      if is_rate_limited r
      then some (stopped_by_quota next)
      else if leb consecutive_failure_limit next.consecutive
      then some (stopped_by_failures next)
      else rest

  -- The loop over a worklist; none where an item never ends.
  unfoldable pub run_items : Kind → List Item → Run → Option Run
  unfolding after_item
  run_items kind [] run = some run
  run_items kind (item ∷ items) run =
      elim (process_one w.parse_time w.is_blank kind item (w.outside kind item) run.files) [
        | none ↦ none
        | some (r, f) ↦
            let next = with_result kind item r f run in
            after_item r next (run_items kind items next)
      ]

  abbrev pub worklist : Kind → Run → List Item
  worklist kind run = get_wanted kind (load_attempts run.files) (w.listed kind)

  -- The second kind is only begun if the first one was not ended early.
  abbrev pub movies_after : Ended → Run → Option Run
  movies_after completed run = run_items movie (worklist movie run) run
  movies_after quota run = some run
  movies_after failures run = some run

  unfoldable pub run_main : ℕ → Files → Option Run
  unfolding run_items
  run_main now f =
      let started = first_run f in
      if is_cooling_down now f.cooldown_until
      then some started
      else elim (run_items episode (worklist episode started) started) [
        | none ↦ none
        | some run ↦ movies_after run.ended run
      ]
