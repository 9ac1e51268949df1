-- ===== src/Monitor/Buffering.antt =====
-- netmon.py: `buffering_events`, which copies new reports from the log of Plex into a file.
use mediahub_configs.Prelude.{
  ℕ, ◌≤◌, ◌<◌, Bool, true, false, Option, none, some, List, [], ◌∷◌, ltb, max, if◌then◌else◌, All,
  All-map, All-append, concat, arith, inl, inr, Bool-cases, All-of_mem, All-mem,
}
use mediahub_configs.Prelude.Sort.{sort_by, IsSortedBy, sort_by-IsSortedBy, mem-sort_by}

-- A line of the log, as it is written down; the times are seconds and milliseconds.
pub record Event : Type 0 where
  pub at : ℕ
  pub client : List ℕ
  pub playback_ms : ℕ
  pub rating_key : ℕ
  pub position_ms : ℕ
  pub duration_ms : ℕ

-- Whether playback was within 3 s of the start.
abbrev pub is_startup : Event → Bool
is_startup e = ltb e.playback_ms 3000

abbrev pub last_or_zero : Option ℕ → ℕ
last_or_zero none = 0
last_or_zero (some last) = last

-- A line that does not match is passed over.
unfoldable pub newer : ℕ → List (Option Event) → List Event
newer last [] = []
newer last (none ∷ lines) = newer last lines
newer last (some e ∷ lines) =
    let rest = newer last lines in if ltb last e.at then e ∷ rest else rest

unfoldable pub newest : List Event → ℕ
newest [] = 0
newest (e ∷ es) = max e.at (newest es)

abbrev written : List Event → Bool → Option ℕ → List Event × Option ℕ
written [] has_text none = ([], if has_text then some 0 else none)
written [] has_text (some last) = ([], some last)
written (e ∷ es) has_text state = (sort_by (λ x. x.at) (e ∷ es), some (newest (e ∷ es)))

-- What is written down of a scan, and `last_buffer_ts` after it.
unfoldable pub buffering_events :
    Option ℕ → (has_text : Bool) → List (Option Event) → List Event × Option ℕ
unfolding newer newest
buffering_events state has_text lines = written (newer (last_or_zero state) lines) has_text state

-- Scans one after the other, each of whatever the log has by then.
abbrev pub scans : Option ℕ → List (Bool × List (Option Event)) → List (List Event)
scans state [] = []
scans state ((has_text, lines) ∷ more) =
    let out = buffering_events state has_text lines in out.0 ∷ scans out.1 more

-- Each event of a scan is earlier than all those of the scans that follow, and a scan is in order.
abbrev pub AreInOrder : List (List Event) → Type 0
AreInOrder [] = Unit
AreInOrder (es ∷ more) =
    IsSortedBy (λ x. x.at) es
    × All (λ e. All (λ later. e.at < later.at) (concat more)) es
    × AreInOrder more

newer-All : (last : ℕ) (lines : List (Option Event)) → All (λ e. last < e.at) (newer last lines)
unfolding newer
newer-All last [] = tt
newer-All last (none ∷ lines) = newer-All last lines
newer-All last (some e ∷ lines) = elim (Bool-cases (ltb last e.at)) [
  | inl later ↦ rw later (ground (arith, later), newer-All last lines)
  | inr earlier ↦ rw earlier (newer-All last lines)
]

newest-All : (es : List Event) → All (λ e. e.at ≤ newest es) es
unfolding newest
newest-All [] = tt
newest-All (e ∷ es) = (ground arith, All-map _ _ (λ x h. ground (arith, h)) es (newest-All es))

sorted-All : (Q : Event → Type 0) (es : List Event) → All Q es → All Q (sort_by (λ x. x.at) es)
sorted-All Q es h =
    All-of_mem Q (sort_by (λ x. x.at) es) (λ x m. All-mem Q x es h (mem-sort_by (λ x. x.at) x es m))

-- A scan's events lie between the time before and the time after.
record IsBetween (last : ℕ) (out : List Event × Option ℕ) : Type 0 where
  sorted : IsSortedBy (λ x. x.at) out.0
  after : All (λ e. last < e.at) out.0
  before : All (λ e. e.at ≤ last_or_zero out.1) out.0
  rises : last ≤ last_or_zero out.1

written-IsBetween :
    (es : List Event) (has_text : Bool) (state : Option ℕ)
    → All (λ e. last_or_zero state < e.at) es
    → IsBetween (last_or_zero state) (written es has_text state)
unfolding newest
written-IsBetween [] true none h = record {
  sorted = tt;
  after = tt;
  before = tt;
  rises = omega arith;
}
written-IsBetween [] false none h = record {
  sorted = tt;
  after = tt;
  before = tt;
  rises = omega arith;
}
written-IsBetween [] has_text (some last) h = record {
  sorted = tt;
  after = tt;
  before = tt;
  rises = omega arith;
}
written-IsBetween (e ∷ es) has_text state (h, hs) = record {
  sorted = sort_by-IsSortedBy (λ x. x.at) (e ∷ es);
  after = sorted-All _ (e ∷ es) (h, hs);
  before = sorted-All _ (e ∷ es) (newest-All (e ∷ es));
  rises = ground (arith, h);
}

scans-lem :
    (state : Option ℕ) (logs : List (Bool × List (Option Event)))
    → AreInOrder (scans state logs)
      × All (λ e. last_or_zero state < e.at) (concat (scans state logs))
unfolding buffering_events
scans-lem state [] = (tt, tt)
scans-lem state ((has_text, lines) ∷ more) =
    let out = buffering_events state has_text lines in
    let here =
      written-IsBetween (newer (last_or_zero state) lines) has_text state
        (newer-All (last_or_zero state) lines) in
    let (order, rest) = scans-lem out.1 more in
    let rises = here.rises in
    (
      (
        here.sorted,
        All-map _ _
            (λ e b. All-map _ _ (λ x a. omega (arith, a, b)) (concat (scans out.1 more)) rest) out.0
            here.before,
        order,
      ),
      All-append _ out.0 (concat (scans out.1 more)) here.after
          (All-map _ _ (λ x a. omega (arith, a, rises)) (concat (scans out.1 more)) rest),
    )

-- Whatever the log has at each scan, the events are written in the order of their times and none is
-- written by two scans: each is earlier than all that a later scan writes.
pub scans-AreInOrder :
    (state : Option ℕ) (logs : List (Bool × List (Option Event))) → AreInOrder (scans state logs)
scans-AreInOrder state logs = (scans-lem state logs).0
