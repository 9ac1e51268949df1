-- ===== src/Digest/Fetch/Complete.antt =====
-- Every entry of the window is fetched once.
use mathlib.Core.List.Perm
use mathlib.Core.List.{Perm}
use mediahub_configs.Prelude.{
  ℕ, zero, suc, ◌+◌, ◌-◌, ◌≤◌, ◌<◌, ◌≡◌, refl, sym, ap, subst, ◌∙◌, some, List, [], ◌++◌, ltb, leb,
  length, false, All, All-map, take, drop, take-append-drop, arith, Bool-cases, inl, inr,
}
use mediahub_configs.Digest.Fetch.{
  Entry, Stream, page_of, latest, fetch_from, fetch_errors, page_limit,
}
use mediahub_configs.Digest.Fetch.Paging.{
  entries_from, IsRising, length-perm, latest-perm, entries_from-rises, entries_from-All,
  entries_from-entries_from, entries_from-split, All-of_append, IsRising-append, latest-All,
  latest-behind, latest-rises, take-short, latest-below,
}

-- What Loki documents of a query forward in time: the first entries from the start on, as many as
-- the limit allows, in some order of their streams.
abbrev pub Serves : (ℕ → List Stream) → ℕ → List Entry → Type 0
Serves loki limit store =
    (cur : ℕ) → Perm (page_of (loki cur)) (take limit (entries_from cur store))

module _ (loki : ℕ → List Stream) (limit : ℕ) (store : List Entry) (stop : ℕ) (h : 1 < limit)
    (serves : Serves loki limit store) (rising : IsRising store)
    (ends : All (λ e. e.at_ns < stop) store) where
  Fetched : ℕ → ℕ → Type 0
  Fetched fuel cur =
      (es : List Entry) × ((fetch_from loki limit fuel cur ≡ some es)
        × Perm es (entries_from cur store))

  -- A full page: the next query starts behind it.
  next_query :
      (cur : ℕ)
      → limit ≤ length (take limit (entries_from cur store))
      → let last = latest cur (take limit (entries_from cur store)) in
        (cur < last)
        × ((last < stop) × (entries_from (last + 1) store ≡ drop limit (entries_from cur store)))
  next_query cur full =
      let all = entries_from cur store in
      let page = take limit all in
      let others = drop limit all in
      let last = latest cur page in
      let (rises, begins) = entries_from-rises cur store rising in
      let parts = take-append-drop limit all in
      let rises' : IsRising (page ++ others) = rw parts rises in
      let begins' : All (λ e. cur ≤ e.at_ns) (page ++ others) = rw parts begins in
      let first = (All-of_append (λ e. cur ≤ e.at_ns) page others begins').0 in
      let later =
        latest-rises cur page (omega arith) first (IsRising-append page others rises').0 in
      let behind = latest-behind cur page others (omega arith) first rises' in
      let below : All (λ e. e.at_ns < stop) (page ++ others) =
        rw parts (entries_from-All (λ e. e.at_ns < stop) cur store ends) in
      let last_below =
        latest-below cur stop page (omega arith) first
          (All-of_append (λ e. e.at_ns < stop) page others below).0 in
      (
        later,
        (
          last_below,
          sym (entries_from-entries_from cur (last + 1) store (omega arith))
              ∙ (ap (entries_from (last + 1)) (sym parts)
                  ∙ entries_from-split (last + 1) page others
                      (All-map (λ e. e.at_ns ≤ last) (λ e. e.at_ns < last + 1) (λ e l. omega arith)
                        page (latest-All cur page))
                      (All-map (λ e. last < e.at_ns) (λ e. last + 1 ≤ e.at_ns) (λ e l. omega arith)
                        others behind)),
        ),
      )

  fetch_from-Fetched : (fuel cur : ℕ) → cur ≤ stop → stop < fuel + cur → Fetched fuel cur
  unfolding fetch_from Fetched
  fetch_from-Fetched zero cur b f = absurd (omega arith)
  fetch_from-Fetched (suc fuel) cur b f =
      let page = page_of (loki cur) in
      let wanted = take limit (entries_from cur store) in
      let same_length = length-perm page wanted (serves cur) in
      let same_latest = latest-perm cur page wanted (serves cur) in
      elim (Bool-cases (ltb (length page) limit)) [
        | inl e ↦
            let all = take-short limit (entries_from cur store) (ground (arith, e, same_length)) in
            (page, (rw (e, fetch_from) refl, subst (λ l. Perm page l) all (serves cur)))
        | inr e ↦
            let (later, found) = next_query cur (ground (arith, e, same_length)) in
            let (below, next) = found in
            let last = latest cur page in
            let (es, more) =
              fetch_from-Fetched fuel (last + 1) (omega (arith, below, same_latest))
                (omega (arith, later, same_latest)) in
            let (ran, perm) = more in
            let rises : leb last cur ≡ false = ground (arith, later, same_latest) in
            let others : entries_from (last + 1) store ≡ drop limit (entries_from cur store) =
              rw same_latest next in
            (
              page ++ es,
              (
                rw (e, rises, ran, fetch_from) refl,
                subst (λ l. Perm (page ++ es) l) (take-append-drop limit (entries_from cur store))
                    (Perm.append (serves cur) (subst (λ l. Perm es l) others perm)),
              ),
            )
      ]

-- The window is fetched whatever the order of the streams in an answer: if Loki serves the entries
-- of a window, no two of them at the same time, the loop over the pages ends, and it yields each
-- entry once.
pub fetch_errors_complete :
    (loki : ℕ → List Stream) (store : List Entry) (start_ns end_ns : ℕ)
    → start_ns ≤ end_ns
    → IsRising store
    → All (λ e. start_ns ≤ e.at_ns) store
    → All (λ e. e.at_ns < end_ns) store
    → Serves loki page_limit store
    → (es : List Entry) × ((fetch_errors loki start_ns end_ns ≡ some es) × Perm es store)
unfolding fetch_errors Fetched
fetch_errors_complete loki store start_ns end_ns h rising begins ends serves =
    let (es, found) =
      fetch_from-Fetched loki page_limit store end_ns (omega arith) serves rising ends
        (suc (end_ns - start_ns)) start_ns h (omega arith) in
    (es, (found.0, subst (λ l. Perm es l) (entries_from-split start_ns [] store tt begins) found.1))
