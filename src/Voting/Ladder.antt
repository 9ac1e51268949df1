-- ===== src/Voting/Ladder.antt =====
-- `temperature_ladder`, in hundredths. `round` is to the nearest, ties to the even; the rounding
-- errors of the floats are not modelled.
use mediahub_configs.Prelude.{
  ℕ, zero, suc, ◌+◌, ◌-◌, ◌*◌, ◌/◌, ◌%◌, ◌≤◌, ◌<◌, ◌≡◌, refl, List, [], ◌∷◌, keep_if, ltb, leb, min,
  ◌==◌, if◌then◌else◌, arith, length, All,
}

abbrev pub standard_fallback : List ℕ
standard_fallback = 0 ∷ 20 ∷ 40 ∷ 60 ∷ 80 ∷ 100 ∷ []

-- n / d to the nearest integer, a tie to the even one.
pub round_div : ℕ → ℕ → ℕ
round_div n d =
    let q = n / d in
    let r = n % d in
    if ltb (2 * r) d then q else if ltb d (2 * r) then q + 1 else if q % 2 == 0 then q else q + 1

-- `round(min(i * min(0.3, 1.0 / (passes - 1)), 1.0), 2)`
pub start_of : ℕ → ℕ → ℕ
unfolding round_div
start_of passes i =
    if leb (passes - 1) 3 then min (i * 30) 100 else min (round_div (i * 100) (passes - 1)) 100

pub rung : ℕ → List ℕ
rung start = start ∷ keep_if (λ t. ltb start t) standard_fallback

-- `for i in range(passes)`, the first `i` given.
pub rungs_from : ℕ → ℕ → ℕ → List (List ℕ)
unfolding rung start_of
rungs_from passes i zero = []
rungs_from passes i (suc n) = rung (start_of passes i) ∷ rungs_from passes (i + 1) n

unfoldable pub temperature_ladder : ℕ → List (List ℕ)
unfolding rungs_from
temperature_ladder passes =
    if leb passes 1 then standard_fallback ∷ [] else rungs_from passes 0 passes

-- A rung climbs strictly, and ends at 1.0.
abbrev pub Climbs : List ℕ → Type 0
Climbs [] = ⊥
Climbs (t ∷ []) = t ≡ 100
Climbs (t ∷ s ∷ ts) = (t < s) × Climbs (s ∷ ts)

start_of-le : (passes i : ℕ) → start_of passes i ≤ 100
unfolding start_of
start_of-le passes i = ground arith

rung-Climbs : (start : ℕ) → start ≤ 100 → Climbs (rung start)
unfolding rung
rung-Climbs start h = ground arith

rungs_from-Climbs : (passes i n : ℕ) → All Climbs (rungs_from passes i n)
unfolding rungs_from
rungs_from-Climbs passes i zero = tt
rungs_from-Climbs passes i (suc n) =
    (rung-Climbs (start_of passes i) (start_of-le passes i), rungs_from-Climbs passes (i + 1) n)

length-rungs_from : (passes i n : ℕ) → length (rungs_from passes i n) ≡ n
unfolding rungs_from
length-rungs_from passes i zero = refl
length-rungs_from passes i (suc n) = omega (arith, length-rungs_from passes (i + 1) n)

-- There is a ladder for each pass, and one if there are none; each climbs strictly from its start
-- and ends at 1.0.
temperature_ladder-Climbs :
    (passes : ℕ)
    → All Climbs (temperature_ladder passes)
      × (length (temperature_ladder passes) ≡ (if leb passes 1 then 1 else passes))
unfolding temperature_ladder
temperature_ladder-Climbs passes =
    ground (arith, rungs_from-Climbs passes 0 passes, length-rungs_from passes 0 passes)
