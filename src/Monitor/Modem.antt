-- ===== src/Monitor/Modem.antt =====
-- netmon.py: the error counters of the modem, which begin again when it restarts.
use mediahub_configs.Prelude.{
  ℕ, ◌+◌, ◌-◌, ◌≡◌, refl, Bool, true, ◌&&◌, Option, none, some, List, [], ◌∷◌, if◌then◌else◌, leb,
  arith,
}

pub record Totals : Type 0 where
  pub good : ℕ
  pub corr : ℕ
  pub uncorr : ℕ

pub data Delta : Type 0 where
  first_reading : Delta
  delta : (good corr uncorr : ℕ) → Delta
  reset : Delta

-- The error counters of a channel, summed up.
unfoldable pub totals : List Totals → Totals
totals [] = record { good = 0; corr = 0; uncorr = 0 }
totals (e ∷ es) =
    let rest = totals es in
    record { good = e.good + rest.good; corr = e.corr + rest.corr; uncorr = e.uncorr + rest.uncorr }

-- `all(tot[k] >= prev[k] for k in tot)`
abbrev pub is_after : Totals → Totals → Bool
is_after prev tot = leb prev.good tot.good && leb prev.corr tot.corr && leb prev.uncorr tot.uncorr

unfoldable pub delta_of : Option Totals → Totals → Delta
delta_of none tot = first_reading
delta_of (some prev) tot =
    if is_after prev tot
    then delta (tot.good - prev.good) (tot.corr - prev.corr) (tot.uncorr - prev.uncorr)
    else reset

-- What the runs write one after the other, each reading being the previous one of the next.
unfoldable pub deltas : Option Totals → List Totals → List Delta
unfolding delta_of
deltas prev [] = []
deltas prev (tot ∷ tots) = delta_of prev tot ∷ deltas (some tot) tots

abbrev pub last_of : Totals → List Totals → Totals
last_of prev [] = prev
last_of prev (tot ∷ tots) = last_of tot tots

-- What the rows add up to, from some totals on; none if the counters began again.
unfoldable pub added_up : Totals → List Delta → Option Totals
added_up t [] = some t
added_up t (first_reading ∷ ds) = none
added_up t (reset ∷ ds) = none
added_up t (delta good corr uncorr ∷ ds) =
    added_up (record { good = t.good + good; corr = t.corr + corr; uncorr = t.uncorr + uncorr }) ds

abbrev pub IsRising : Totals → List Totals → Type 0
IsRising prev [] = Unit
IsRising prev (tot ∷ tots) = (is_after prev tot ≡ true) × IsRising tot tots

added : (a b : ℕ) → leb a b ≡ true → a + (b - a) ≡ b
added a b h = ground arith

all_after :
    (prev tot : Totals)
    → is_after prev tot ≡ true
    → (leb prev.good tot.good ≡ true)
      × (leb prev.corr tot.corr ≡ true)
      × (leb prev.uncorr tot.uncorr ≡ true)
all_after prev tot h = (ground arith, ground arith, ground arith)

-- While no counter goes down, the rows that the runs write add up to the latest totals: nothing is
-- lost between two runs and nothing counts twice.
pub added_up-deltas :
    (prev : Totals) (tots : List Totals)
    → IsRising prev tots
    → added_up prev (deltas (some prev) tots) ≡ some (last_of prev tots)
unfolding deltas delta_of added_up
added_up-deltas prev [] h = refl
added_up-deltas prev (tot ∷ tots) (h, hs) =
    let (a, b, c) = all_after prev tot h in
    let rest = added_up-deltas tot tots hs in
    let good = added prev.good tot.good a in
    let corr = added prev.corr tot.corr b in
    let uncorr = added prev.uncorr tot.uncorr c in rw (h, added_up, good, corr, uncorr) rest
