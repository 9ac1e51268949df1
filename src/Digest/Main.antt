-- ===== src/Digest/Main.antt =====
-- `main`, `post_discord`, `github_issue` and `last_seen_per_host`: what a run does, in which order.
pub mod Order
use mediahub_configs.Prelude.{
  ℕ, zero, suc, ◌+◌, ◌-◌, ◌*◌, Bool, true, false, not, ◌&&◌, Option, none, some, List, [], ◌∷◌,
  ◌++◌, map, if◌then◌else◌, ltb, leb, length, take, keep_if,
}
use mediahub_configs.Prelude.Equality.{◌=?◌, list_eq, nat_eq, pair_eq}
use mediahub_configs.Prelude.Dict.{get}
use mediahub_configs.Prelude.Text.{ended_by}
use mediahub_configs.Digest.Groups.{Key, Group}
use mediahub_configs.Digest.Compose.{
  Seen, Line, compose, new_keys, next_signatures, group_of, sorted_down,
}
use mediahub_configs.Digest.Discord.{split_discord}

-- An hour, in the unit of the times.
abbrev pub hour : ℕ
hour = 3600000000000

-- A host is stale if it sent nothing for an hour, or nothing at all.
abbrev pub is_stale : ℕ → Option ℕ → Bool
is_stale now none = true
is_stale now (some last) = ltb (last + hour) now

unfoldable pub stale_hosts : ℕ → List (List ℕ × Option ℕ) → List (List ℕ)
stale_hosts now hosts = map (λ h. h.0) (keep_if (λ h. is_stale now h.1) hosts)

-- `--freshness`
unfoldable pub freshness_code : ℕ → List (List ℕ × Option ℕ) → ℕ
unfolding stale_hosts
freshness_code now hosts = elim (stale_hosts now hosts) [ [] ↦ 0 | h ∷ hs ↦ 1 ]

pub data Effect : Type 0 where
  post : List ℕ → Effect
  save_state : (signatures : List (List ℕ × Seen)) (last_run : ℕ) → Effect
  comment_issue : (number : ℕ) (keys : List Key) → Effect
  create_issue : (keys : List Key) → Effect

-- What a run has done, and its exit code; none if it was left by an exception.
pub record Run : Type 0 where
  pub effects : List Effect
  pub code : Option ℕ

-- What is outside: whether a post is answered, and what `gh issue list` finds.
pub record Outside : Type 0 where
  pub accepts : List ℕ → Bool
  pub open_issue : Option ℕ

-- The parts are posted in turn, and the first that is refused raises.
unfoldable pub post_parts : (List ℕ → Bool) → List (List ℕ) → List Effect × Bool
post_parts accepts [] = ([], true)
post_parts accepts (part ∷ parts) =
    let rest = post_parts accepts parts in
    if accepts part then (post part ∷ rest.0, rest.1) else (post part ∷ [], false)

-- The keys that are written into the issue, and whether it is one that is there. The command may
-- fail, which `main` reports and goes on.
unfoldable pub github_issue : Outside → List Key → List (Key × Group) → Effect
github_issue o new rep =
    let shown = take 25 (sorted_down (λ k. (group_of rep k).n) new) in
    elim o.open_issue [ none ↦ create_issue shown | some number ↦ comment_issue number shown ]

pub record Options : Type 0 where
  pub dry_run : Bool
  pub no_discord : Bool
  pub has_webhook : Bool

abbrev pub signatures_or_none : Option (List (List ℕ × Seen)) → List (List ℕ × Seen)
signatures_or_none none = []
signatures_or_none (some signatures) = signatures

abbrev pub is_first_run : Option (List (List ℕ × Seen)) → Bool
is_first_run none = true
is_first_run (some signatures) = false

abbrev pub issues : Outside → List Key → List (Key × Group) → List Effect
issues o [] rep = []
issues o (k ∷ ks) rep = github_issue o (k ∷ ks) rep ∷ []

-- The state is saved before GitHub is asked.
unfoldable pub saved_and_told :
    Outside → ℕ → List (Key × Group) → List (List ℕ × Seen) → List Effect
unfolding github_issue
saved_and_told o end rep prev =
    save_state (next_signatures end rep prev) end ∷ issues o (new_keys rep prev) rep

-- `write` is the text of the lines and, if there are any, of the warning on stale hosts.
module _ (is_space : ℕ → Bool) (write : List Line → List (List ℕ) → List ℕ) where
  -- A run of a digest, from what `build` returns and the signatures of the state file, which are
  -- missing on the first run.
  unfoldable pub run_digest :
      Outside
      → Options
      → ℕ
      → List (Key × Group)
      → Option (List (List ℕ × Seen))
      → List (List ℕ)
      → Run
  unfolding saved_and_told
  run_digest o options end rep state stale =
      let prev = signatures_or_none state in
      let text = write (compose end rep prev (is_first_run state)) stale in
      let parts = split_discord is_space 1900 text in
      let posts = post_parts o.accepts (if options.no_discord then [] else parts) in
      if options.dry_run
      then record { effects = []; code = some 0 }
      else if not options.has_webhook
      then record { effects = []; code = some 2 }
      else if posts.1
      then record { effects = posts.0 ++ saved_and_told o end rep prev; code = some 0 }
      else record { effects = posts.0; code = none }
