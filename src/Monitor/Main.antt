-- ===== src/Monitor/Main.antt =====
-- netmon.py: `main`, which tests the line now and then, when nobody watches.
use mediahub_configs.Prelude.{
  ℕ, ◌+◌, ◌*◌, ◌≡◌, ◌≢◌, ◌≤◌, refl, Bool, true, false, ◌&&◌, ◌||◌, Option, none, some, List, [],
  ◌∷◌, if◌then◌else◌, All, leb, arith, Bool-cases, inl, inr, ◌⊎◌, sym, subst,
}
use mediahub_configs.Monitor.Sessions.{Session, plex_state, plex_state-idle, is_watched}

abbrev pub upload_every_s : ℕ
upload_every_s = 170 * 60

abbrev pub download_every_s : ℕ
download_every_s = 11 * 3600

-- The state file; a time that is missing there is 0.
pub record State : Type 0 where
  pub last_up : ℕ
  pub last_down : ℕ

pub data Kind : Type 0 where
  probe upload full : Kind

pub data SkipReason : Type 0 where
  not_skipped streams_active plex_unreadable : SkipReason

pub record Row : Type 0 where
  pub kind : Kind
  pub skip_reason : SkipReason

-- Which of the rates of the two servers are there and not zero, without and with a download.
pub record Measured : Type 0 where
  pub pin_up : Bool
  pub alt_up : Bool
  pub pin_down : Bool
  pub alt_down : Bool

abbrev pub want_up : ℕ → State → Bool
want_up t s = leb (s.last_up + upload_every_s) t

abbrev pub want_down : ℕ → State → Bool
want_down t s = want_up t s && leb (s.last_down + download_every_s) t

abbrev pub after_tests : ℕ → Bool → Measured → State → State
after_tests t download r s =
    if r.pin_up || r.alt_up
    then record {
      last_up = t;
      last_down = if download && (r.pin_down || r.alt_down) then t else s.last_down;
    }
    else s

-- A test that is due, given whether a video plays; not even if that is unknown.
unfoldable pub tested : ℕ → Option Bool → (Bool → Measured) → State → Row × State
tested t (some false) run_tests s =
    let download = want_down t s in
    (
      record { kind = if download then full else upload; skip_reason = not_skipped },
      after_tests t download (run_tests download) s,
    )
tested t (some true) run_tests s = (record { kind = probe; skip_reason = streams_active }, s)
tested t none run_tests s = (record { kind = probe; skip_reason = plex_unreadable }, s)

unfoldable pub main : ℕ → Option (List Session) → (Bool → Measured) → State → Row × State
unfolding plex_state tested
main t answer run_tests s =
    if want_up t s
    then tested t (plex_state answer).1 run_tests s
    else (record { kind = probe; skip_reason = not_skipped }, s)

is_tested :
    (t : ℕ) (active : Option Bool) (run_tests : Bool → Measured) (s : State)
    → (tested t active run_tests s).0.kind ≢ probe
    → active ≡ some false
unfolding tested
is_tested t none run_tests s h = absurd (h refl)
is_tested t (some true) run_tests s h = absurd (h refl)
is_tested t (some false) run_tests s h = refl

-- The line is only tested when Plex could be read and no session is a video that plays or buffers,
-- and an upload was not measured in the last 170 minutes.
pub main-is_watched :
    (t : ℕ) (answer : Option (List Session)) (run_tests : Bool → Measured) (s : State)
    → (main t answer run_tests s).0.kind ≢ probe
    → (s.last_up + upload_every_s ≤ t)
      × ((sessions : List Session) × (answer ≡ some sessions)
          × All (λ s. is_watched s ≡ false) sessions)
unfolding main
main-is_watched t answer run_tests s h = elim (Bool-cases (want_up t s)) [
  | inl due ↦ (
    ground (arith, due),
    plex_state-idle answer
        (is_tested t (plex_state answer).1 run_tests s (λ p. h (rw (due, main) p))),
  )
  | inr early ↦ absurd (h (rw (early, main) refl))
]

-- A run of the program: when, and what it meets.
pub record Run : Type 0 where
  pub at : ℕ
  pub answer : Option (List Session)
  pub run_tests : Bool → Measured

abbrev pub run_main_once : Run → State → Row × State
run_main_once r s = main r.at r.answer r.run_tests s

abbrev is_test : Kind → Bool
is_test probe = false
is_test upload = true
is_test full = true

-- Whether a run has measured an upload.
abbrev pub is_measured : Run → State → Bool
is_measured r s =
    let tests = r.run_tests (want_down r.at s) in
    is_test (run_main_once r s).0.kind && (tests.pin_up || tests.alt_up)

abbrev pub measured_times : State → List Run → List ℕ
measured_times s [] = []
measured_times s (r ∷ rs) =
    let rest = measured_times (run_main_once r s).1 rs in
    if is_measured r s then r.at ∷ rest else rest

abbrev pub AreSpaced : ℕ → List ℕ → Type 0
AreSpaced last [] = Unit
AreSpaced last (t ∷ ts) = (last + upload_every_s ≤ t) × AreSpaced t ts

main-due :
    (r : Run) (s : State)
    → want_up r.at s ≡ true
    → run_main_once r s ≡ tested r.at (plex_state r.answer).1 r.run_tests s
unfolding main
main-due r s h = rw (h, main) refl

main-early :
    (r : Run) (s : State)
    → want_up r.at s ≡ false
    → run_main_once r s ≡ (record { kind = probe; skip_reason = not_skipped }, s)
unfolding main
main-early r s h = rw (h, main) refl

-- What a run leaves: the time of an upload that it measured, or the one that was there.
abbrev Leaves : Run → State → Row × State → Type 0
Leaves r s out =
    let tests = r.run_tests (want_down r.at s) in
    let measured = is_test out.0.kind && (tests.pin_up || tests.alt_up) in
    (measured ≡ true × (s.last_up + upload_every_s ≤ r.at) × (out.1.last_up ≡ r.at))
    ⊎ (measured ≡ false × out.1.last_up ≡ s.last_up)

after_tests-last_up :
    (t : ℕ) (s : State) (download : Bool) (tests : Measured)
    → s.last_up + upload_every_s ≤ t
    → (is_test (if download then full else upload) && (tests.pin_up || tests.alt_up) ≡ true
        × (s.last_up + upload_every_s ≤ t)
        × ((after_tests t download tests s).last_up ≡ t))
      ⊎ (is_test (if download then full else upload) && (tests.pin_up || tests.alt_up) ≡ false
          × (after_tests t download tests s).last_up ≡ s.last_up)
after_tests-last_up t s true tests h = elim (Bool-cases (tests.pin_up || tests.alt_up)) [
  | inl is ↦ inl (is, h, rw is refl)
  | inr is_not ↦ inr (is_not, rw is_not refl)
]
after_tests-last_up t s false tests h = elim (Bool-cases (tests.pin_up || tests.alt_up)) [
  | inl is ↦ inl (is, h, rw is refl)
  | inr is_not ↦ inr (is_not, rw is_not refl)
]

tested-Leaves :
    (r : Run) (s : State) (active : Option Bool)
    → s.last_up + upload_every_s ≤ r.at
    → Leaves r s (tested r.at active r.run_tests s)
unfolding tested
tested-Leaves r s none h = inr (refl, refl)
tested-Leaves r s (some true) h = inr (refl, refl)
tested-Leaves r s (some false) h =
    after_tests-last_up r.at s (want_down r.at s) (r.run_tests (want_down r.at s)) h

run_main_once-Leaves : (r : Run) (s : State) → Leaves r s (run_main_once r s)
run_main_once-Leaves r s = elim (Bool-cases (want_up r.at s)) [
  | inl due ↦
      subst (Leaves r s) (sym (main-due r s due))
        (tested-Leaves r s (plex_state r.answer).1 (ground (arith, due)))
  | inr early ↦ subst (Leaves r s) (sym (main-early r s early)) (inr (refl, refl))
]

-- Between two runs that measure an upload lie at least 170 minutes, however often the program runs
-- and whatever the runs between them meet.
pub measured_times-AreSpaced :
    (rs : List Run) (s : State) → AreSpaced s.last_up (measured_times s rs)
measured_times-AreSpaced [] s = tt
measured_times-AreSpaced (r ∷ rs) s =
    let rest = measured_times-AreSpaced rs (run_main_once r s).1 in
    elim (run_main_once-Leaves r s) [
      | inl (is, late, last) ↦
          rw is (late, subst (λ l. AreSpaced l (measured_times (run_main_once r s).1 rs)) last rest)
      | inr (is_not, last) ↦
          rw is_not (subst (λ l. AreSpaced l (measured_times (run_main_once r s).1 rs)) last rest)
    ]
