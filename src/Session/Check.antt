-- ===== src/Session/Check.antt =====
-- `main`: what is found on this machine, and the exit code that decides whether it may reboot.
use mediahub_configs.Prelude.{
  ℕ, zero, ◌≡◌, refl, List, [], ◌∷◌, ◌++◌, if◌then◌else◌, arith, any, not, ◌||◌, Bool-cases, inl,
  inr, Bool, true, false,
}
use mediahub_configs.Session.Java.{ℤ, pos, Players, absent, unreadable, online}
use mediahub_configs.Session.Sunshine.{Sunshine, idle, streaming, unknown}

pub data Kind : Type 0 where
  java bedrock : Kind

-- The lines of the report.
pub data Reason : Type 0 where
  sunshine_active : Reason
  sunshine_unknown : Reason
  players_on : (n : ℤ) (port : ℕ) → Reason
  minecraft_unknown : (kind : Kind) (port : ℕ) → Reason

pub record Found : Type 0 where
  pub busy : List Reason
  pub unknown_state : List Reason

-- `if n:`
abbrev pub is_nonzero : ℤ → Bool
is_nonzero (pos zero) = false
is_nonzero _ = true

note_busy : Reason → Found → Found
note_busy r found = record { busy = found.busy ++ r ∷ []; unknown_state = found.unknown_state }

note_unknown : Reason → Found → Found
note_unknown r found = record { busy = found.busy; unknown_state = found.unknown_state ++ r ∷ [] }

-- The loop over the ports of one kind, each with what its server says.
unfoldable pub look_at : Kind → List (ℕ × Players) → Found → Found
unfolding note_busy note_unknown
look_at kind [] found = found
look_at kind ((port, absent) ∷ ports) found = look_at kind ports found
look_at kind ((port, unreadable) ∷ ports) found =
    look_at kind ports (note_unknown (minecraft_unknown kind port) found)
look_at kind ((port, online n) ∷ ports) found =
    look_at kind ports (if is_nonzero n then note_busy (players_on n port) found else found)

unfoldable pub first_found : Sunshine → Found
first_found idle = record { busy = []; unknown_state = [] }
first_found streaming = record { busy = sunshine_active ∷ []; unknown_state = [] }
first_found unknown = record { busy = []; unknown_state = sunshine_unknown ∷ [] }

-- The exit code and what is printed.
abbrev code_of : List Reason → List Reason → ℕ × List Reason
code_of (r ∷ rs) unknown_state = (1, r ∷ rs)
code_of [] (r ∷ rs) = (2, r ∷ rs)
code_of [] [] = (0, [])

unfoldable pub report : Found → ℕ × List Reason
report found = code_of found.busy found.unknown_state

unfoldable pub check : Sunshine → List (ℕ × Players) → List (ℕ × Players) → ℕ × List Reason
unfolding look_at first_found report
check s java_ports bedrock_ports =
    report (look_at bedrock bedrock_ports (look_at java java_ports (first_found s)))

abbrev pub is_busy : ℕ × Players → Bool
is_busy (port, online n) = is_nonzero n
is_busy (port, _) = false

abbrev pub is_unreadable : ℕ × Players → Bool
is_unreadable (port, unreadable) = true
is_unreadable (port, _) = false

abbrev is_empty : List Reason → Bool
is_empty [] = true
is_empty (r ∷ rs) = false

is_empty-snoc : (rs : List Reason) (r : Reason) → is_empty (rs ++ r ∷ []) ≡ false
is_empty-snoc [] r = refl
is_empty-snoc (x ∷ rs) r = refl

look_at-busy :
    (kind : Kind) (ports : List (ℕ × Players)) (found : Found)
    → is_empty (look_at kind ports found).busy
      ≡ (if any is_busy ports then false else is_empty found.busy)
unfolding look_at note_busy note_unknown
look_at-busy kind [] found = refl
look_at-busy kind ((port, absent) ∷ ports) found = look_at-busy kind ports found
look_at-busy kind ((port, unreadable) ∷ ports) found =
    look_at-busy kind ports (note_unknown (minecraft_unknown kind port) found)
look_at-busy kind ((port, online n) ∷ ports) found = elim (Bool-cases (is_nonzero n)) [
  | inl e ↦
      let noted = note_busy (players_on n port) found in
      ground (arith, e, look_at-busy kind ports noted, is_empty-snoc found.busy (players_on n port))
  | inr e ↦ ground (arith, e, look_at-busy kind ports found)
]

look_at-unknown_state :
    (kind : Kind) (ports : List (ℕ × Players)) (found : Found)
    → is_empty (look_at kind ports found).unknown_state
      ≡ (if any is_unreadable ports then false else is_empty found.unknown_state)
unfolding look_at note_busy note_unknown
look_at-unknown_state kind [] found = refl
look_at-unknown_state kind ((port, absent) ∷ ports) found = look_at-unknown_state kind ports found
look_at-unknown_state kind ((port, unreadable) ∷ ports) found =
    let noted = note_unknown (minecraft_unknown kind port) found in
    ground (
      arith,
      look_at-unknown_state kind ports noted,
      is_empty-snoc found.unknown_state (minecraft_unknown kind port),
    )
look_at-unknown_state kind ((port, online n) ∷ ports) found = elim (Bool-cases (is_nonzero n)) [
  | inl e ↦
      ground (arith, e, look_at-unknown_state kind ports (note_busy (players_on n port) found))
  | inr e ↦ ground (arith, e, look_at-unknown_state kind ports found)
]

code_of_lem :
    (busy unknown_state : List Reason)
    → (code_of busy unknown_state).0
      ≡ (if is_empty busy then if is_empty unknown_state then 0 else 2 else 1)
code_of_lem [] [] = refl
code_of_lem [] (r ∷ rs) = refl
code_of_lem (r ∷ rs) unknown_state = refl

abbrev pub is_streaming : Sunshine → Bool
is_streaming streaming = true
is_streaming _ = false

abbrev pub is_unknown : Sunshine → Bool
is_unknown unknown = true
is_unknown _ = false

first_found-busy : (s : Sunshine) → is_empty (first_found s).busy ≡ not (is_streaming s)
unfolding first_found
first_found-busy idle = refl
first_found-busy streaming = refl
first_found-busy unknown = refl

first_found-unknown_state :
    (s : Sunshine) → is_empty (first_found s).unknown_state ≡ not (is_unknown s)
unfolding first_found
first_found-unknown_state idle = refl
first_found-unknown_state streaming = refl
first_found-unknown_state unknown = refl

-- The exit code is 1 if a stream or a player is seen, even where another service cannot be read;
-- else it is 2 if a service answers and cannot be read; it is 0 only if neither is so.
check-code :
    (s : Sunshine) (java_ports bedrock_ports : List (ℕ × Players))
    → (check s java_ports bedrock_ports).0 ≡ (
        if is_streaming s || (any is_busy java_ports || any is_busy bedrock_ports)
        then 1
        else if is_unknown s || (any is_unreadable java_ports || any is_unreadable bedrock_ports)
        then 2
        else 0)
unfolding check report first_found
check-code s java_ports bedrock_ports =
    let start = first_found s in
    let halfway = look_at java java_ports start in
    let found = look_at bedrock bedrock_ports halfway in
    ground (
      arith,
      first_found-busy s,
      first_found-unknown_state s,
      code_of_lem found.busy found.unknown_state,
      look_at-busy java java_ports start,
      look_at-busy bedrock bedrock_ports halfway,
      look_at-unknown_state java java_ports start,
      look_at-unknown_state bedrock bedrock_ports halfway,
    )
