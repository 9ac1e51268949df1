-- ===== src/Bazarr/Run/Streaks.antt =====
-- Failures in a row among the results of a run.
use mediahub_configs.Prelude.{
  ℕ, ◌+◌, ◌<◌, ◌≤◌, ◌≡◌, refl, true, false, List, [], ◌∷◌, ◌++◌, leb, arith,
}
use mediahub_configs.Bazarr.Attempts.{Kind}
use mediahub_configs.Bazarr.Item.{Result}
use mediahub_configs.Bazarr.Run.{
  consecutive_failure_limit, Ended, completed, quota, failures, streak, is_rate_limited,
}

-- The failures at the end of some results, after `n` others.
abbrev pub streak_after : ℕ → List (Kind × (ℕ × Result)) → ℕ
streak_after n [] = n
streak_after n (x ∷ xs) = streak_after (streak x.1.1 n) xs

-- None of the results ends a run.
abbrev pub GoesOn : ℕ → List (Kind × (ℕ × Result)) → Type 0
GoesOn n [] = Unit
GoesOn n (x ∷ xs) =
    (is_rate_limited x.1.1 ≡ false)
    × ((streak x.1.1 n < consecutive_failure_limit) × GoesOn (streak x.1.1 n) xs)

-- Why a run ended, told from its results.
abbrev pub EndsAs : Ended → List (Kind × (ℕ × Result)) → Type 0
EndsAs completed results = GoesOn 0 results
EndsAs quota results =
    (before : List (Kind × (ℕ × Result))) × ((x : Kind × (ℕ × Result)) × ((results
          ≡ before ++ x ∷ [])
        × ((is_rate_limited x.1.1 ≡ true) × GoesOn 0 before)))
EndsAs failures results =
    (before : List (Kind × (ℕ × Result))) × ((x : Kind × (ℕ × Result)) × ((results
          ≡ before ++ x ∷ [])
        × ((streak_after 0 results ≡ consecutive_failure_limit) × GoesOn 0 before)))

pub streak_after-snoc :
    (n : ℕ) (xs : List (Kind × (ℕ × Result))) (x : Kind × (ℕ × Result))
    → streak_after n (xs ++ x ∷ []) ≡ streak x.1.1 (streak_after n xs)
streak_after-snoc n [] x = refl
streak_after-snoc n (y ∷ xs) x = streak_after-snoc (streak y.1.1 n) xs x

pub GoesOn-snoc :
    (n : ℕ) (xs : List (Kind × (ℕ × Result))) (x : Kind × (ℕ × Result))
    → GoesOn n xs
    → is_rate_limited x.1.1 ≡ false
    → streak x.1.1 (streak_after n xs) < consecutive_failure_limit
    → GoesOn n (xs ++ x ∷ [])
GoesOn-snoc n [] x h r s = (r, (s, tt))
GoesOn-snoc n (y ∷ xs) x h r s = (h.0, (h.1.0, GoesOn-snoc (streak y.1.1 n) xs x h.1.1 r s))

pub streak-le : (r : Result) (n : ℕ) → streak r n ≤ n + 1
streak-le r n = ground arith

pub GoesOn-streak_after :
    (n : ℕ) (xs : List (Kind × (ℕ × Result)))
    → n < consecutive_failure_limit
    → GoesOn n xs
    → streak_after n xs < consecutive_failure_limit
GoesOn-streak_after n [] b h = b
GoesOn-streak_after n (x ∷ xs) b h = GoesOn-streak_after (streak x.1.1 n) xs h.1.0 h.1.1

pub limit_reached : (n : ℕ) → leb consecutive_failure_limit n ≡ true → consecutive_failure_limit ≤ n
limit_reached n h = ground arith
