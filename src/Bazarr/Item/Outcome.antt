-- ===== src/Bazarr/Item/Outcome.antt =====
-- An item always has a result, and its failures are counted one by one.
use mediahub_configs.Prelude.{
  ℕ, ◌+◌, ◌≡◌, refl, ap, ◌∙◌, Bool, true, false, ◌&&◌, Option, some, List, if◌then◌else◌, arith,
  Bool-cases, inl, inr, ==_iff,
}
use mediahub_configs.Prelude.Equality.{◌=?◌, nat_eq}
use mediahub_configs.Prelude.Dict.{get, put, get-put}
use mediahub_configs.Bazarr.Attempts.{
  Kind, episode, movie, Files, load_attempts, record_failure, Item, counted, count_or_zero,
}
use mediahub_configs.Bazarr.Item.Wait.{IsOutcome, result_of_ends}
use mediahub_configs.Bazarr.Item.{
  Result, ok, timeout, skip, fail, rate_limited, permission, malformed, Outside, is_recorded,
  process_one,
}

abbrev pub is_same : Kind → ℕ → Kind → ℕ → Bool
is_same episode i episode j = i =? j
is_same movie i movie j = i =? j
is_same episode i movie j = false
is_same movie i episode j = false

counted-put :
    (i id : ℕ) (d : List (ℕ × ℕ))
    → count_or_zero (get id (put i (count_or_zero (get i d) + 1) d))
      ≡ count_or_zero (get id d) + (if i =? id then 1 else 0)
counted-put i id d =
    let n = count_or_zero (get i d) in
    let found = ap count_or_zero (get-put i id (n + 1) d) in
    elim (Bool-cases (i =? id)) [
      | inl q ↦
          let same : i ≡ id = (==_iff i id).0 q in
          found ∙ rw q (ap (λ j. count_or_zero (get j d) + 1) same)
      | inr q ↦ found ∙ rw q (omega arith)
    ]

counted-record_failure :
    (k : Kind) (i : ℕ) (kind : Kind) (id : ℕ) (f : Files)
    → counted kind id (load_attempts (record_failure k i f))
      ≡ counted kind id (load_attempts f) + (if is_same k i kind id then 1 else 0)
unfolding record_failure
counted-record_failure episode i episode id f = counted-put i id (load_attempts f).episodes
counted-record_failure movie i movie id f = counted-put i id (load_attempts f).movies
counted-record_failure episode i movie id f = omega arith
counted-record_failure movie i episode id f = omega arith

-- The files with a failure recorded or not.
if_recorded-cooldown_until :
    (b : Bool) (kind : Kind) (id : ℕ) (f : Files)
    → (if b then record_failure kind id f else f).cooldown_until ≡ f.cooldown_until
unfolding record_failure
if_recorded-cooldown_until true kind id f = refl
if_recorded-cooldown_until false kind id f = refl

if_recorded-counted :
    (b : Bool) (kind : Kind) (id : ℕ) (f : Files) (k : Kind) (i : ℕ)
    → counted k i (load_attempts (if b then record_failure kind id f else f))
      ≡ counted k i (load_attempts f) + (if b && is_same kind id k i then 1 else 0)
if_recorded-counted true kind id f k i = counted-record_failure kind id k i f
if_recorded-counted false kind id f k i = omega arith

-- The results that count as a failed attempt.
abbrev pub counts_against : Result → Bool
counts_against ok = false
counts_against fail = true
counts_against timeout = true
counts_against skip = false
counts_against rate_limited = false
counts_against permission = false
counts_against malformed = true

is_recorded-eq : (r : Result) → is_recorded r ≡ counts_against r
is_recorded-eq ok = refl
is_recorded-eq fail = refl
is_recorded-eq timeout = refl
is_recorded-eq skip = refl
is_recorded-eq rate_limited = refl
is_recorded-eq permission = refl
is_recorded-eq malformed = refl

-- An item always has a result: the wait for its file ends. The result is skip without an English
-- subtitle and fail if the code of the request is not 204. Else Bazarr is looked at every eight
-- seconds, at most 30 times: ok, if the file is there at the first time that it or an error of the log
-- is, the error, if it is the error alone, and timeout if there is none in all 30 times. The item's
-- count of failures goes up by one for fail, timeout and malformed, and stays for the other results. No
-- other count changes, and neither does the cooldown.
pub process_one_lem :
    (parse_time : List ℕ → Option ℕ) (is_blank : List ℕ → Bool) (kind : Kind) (item : Item)
    (o : Outside) (f : Files)
    → (r : Result) × (g : Files) × (process_one parse_time is_blank kind item o f ≡ some (r, g))
      × (g.cooldown_until ≡ f.cooldown_until)
      × ((k : Kind) (i : ℕ)
          → counted k i (load_attempts g)
            ≡ counted k i (load_attempts f)
              + (if counts_against r && is_same kind item.id k i then 1 else 0))
      × IsOutcome parse_time is_blank item o r
unfolding process_one
process_one_lem parse_time is_blank kind item o f =
    let (r, ran, outcome) = result_of_ends parse_time is_blank item o in
    let g = if is_recorded r then record_failure kind item.id f else f in
    (
      r,
      g,
      rw (ran, process_one) refl,
      if_recorded-cooldown_until (is_recorded r) kind item.id f,
      λ k i.
          if_recorded-counted (is_recorded r) kind item.id f k i
          ∙ ap
              (λ b.
                counted k i (load_attempts f) + (if b && is_same kind item.id k i then 1 else 0))
              (is_recorded-eq r),
      outcome,
    )
