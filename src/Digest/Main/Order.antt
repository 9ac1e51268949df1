-- ===== src/Digest/Main/Order.antt =====
-- What a run has done when it ends, in which order, and how it ends.
use mediahub_configs.Prelude.{
  ℕ, ◌≡◌, refl, ap, ap₂, sym, subst, take, Bool, true, false, ◌&&◌, Option, none, some, List, [],
  ◌∷◌, ◌++◌, if◌then◌else◌, Bool-cases, inl, inr,
}
use mediahub_configs.Digest.Groups.{Key, Group}
use mediahub_configs.Digest.Compose.{
  Seen, Line, compose, new_keys, next_signatures, sorted_down, group_of,
}
use mediahub_configs.Digest.Discord.{split_discord}
use mediahub_configs.Digest.Main.{
  Effect, Run, post, save_state, comment_issue, create_issue, Outside, post_parts, github_issue,
  Options, issues, saved_and_told, run_digest, signatures_or_none, is_first_run,
}

-- The parts up to the first that is refused, this one included.
abbrev pub sent_of : (List ℕ → Bool) → List (List ℕ) → List (List ℕ)
sent_of accepts [] = []
sent_of accepts (part ∷ parts) =
    let rest = sent_of accepts parts in part ∷ (if accepts part then rest else [])

abbrev pub all_accepted : (List ℕ → Bool) → List (List ℕ) → Bool
all_accepted accepts [] = true
all_accepted accepts (part ∷ parts) = accepts part && all_accepted accepts parts

-- An issue is told of if there is something new: the open one if there is one.
abbrev pub IsTold : Option ℕ → List Key → List Effect → Type 0
IsTold o [] effects = effects ≡ []
IsTold none (k ∷ ks) effects = (shown : List Key) × (effects ≡ create_issue shown ∷ [])
IsTold (some number) (k ∷ ks) effects =
    (shown : List Key) × (effects ≡ comment_issue number shown ∷ [])

abbrev pub posts_of : List (List ℕ) → List Effect
posts_of [] = []
posts_of (part ∷ parts) = post part ∷ posts_of parts

-- A run does nothing but post until it saves its state.
pub data IsRun (sent : List (List ℕ)) (saved : Effect) (o : Option ℕ) (new : List Key)
    : (ends_well : Bool) → List Effect → Type 0 where
  raises : IsRun sent saved o new false (posts_of sent)
  saves :
      (told : List Effect)
      → IsTold o new told
      → IsRun sent saved o new true (posts_of sent ++ (saved ∷ told))

post_parts-sent_of :
    (accepts : List ℕ → Bool) (parts : List (List ℕ))
    → ((post_parts accepts parts).0 ≡ posts_of (sent_of accepts parts))
      × ((post_parts accepts parts).1 ≡ all_accepted accepts parts)
unfolding post_parts
post_parts-sent_of accepts [] = (refl, refl)
post_parts-sent_of accepts (part ∷ parts) =
    let (sent, all) = post_parts-sent_of accepts parts in
    elim (Bool-cases (accepts part)) [
      | inl e ↦ rw e (ap (λ l. post part ∷ l) sent, all)
      | inr e ↦ rw e (refl, refl)
    ]

issues-IsTold :
    (o : Outside) (new : List Key) (rep : List (Key × Group))
    → (open_issue : Option ℕ) → o.open_issue ≡ open_issue
    → IsTold open_issue new (issues o new rep)
unfolding github_issue
issues-IsTold o [] rep none h = refl
issues-IsTold o [] rep (some n) h = refl
issues-IsTold o (k ∷ ks) rep none h =
    (take 25 (sorted_down (λ k. (group_of rep k).n) (k ∷ ks)), rw (h, github_issue) refl)
issues-IsTold o (k ∷ ks) rep (some n) h =
    (take 25 (sorted_down (λ k. (group_of rep k).n) (k ∷ ks)), rw (h, github_issue) refl)

-- A run from what its posts were.
abbrev run_of : Outside → ℕ → List (Key × Group) → List (List ℕ × Seen) → List Effect × Bool → Run
run_of o end rep prev posts =
    if posts.1
    then record { effects = posts.0 ++ saved_and_told o end rep prev; code = some 0 }
    else record { effects = posts.0; code = none }

module _ (o : Outside) (end : ℕ) (rep : List (Key × Group)) (prev : List (List ℕ × Seen)) where
  abbrev Ends : List (List ℕ) → Bool → Run → Type 0
  Ends sent ends_well run =
      (run.code ≡ (if ends_well then some 0 else none))
      × IsRun sent (save_state (next_signatures end rep prev) end) o.open_issue (new_keys rep prev)
          ends_well run.effects

  run_of-Ends :
      (posts : List Effect × Bool) (sent : List (List ℕ)) (ends_well : Bool)
      → posts ≡ (posts_of sent, ends_well)
      → Ends sent ends_well (run_of o end rep prev posts)
  unfolding saved_and_told
  run_of-Ends posts sent true h =
      subst (λ p. Ends sent true (run_of o end rep prev p)) (sym h)
        (
          refl,
          saves (issues o (new_keys rep prev) rep)
              (issues-IsTold o (new_keys rep prev) rep o.open_issue refl),
        )
  run_of-Ends posts sent false h =
      subst (λ p. Ends sent false (run_of o end rep prev p)) (sym h) (refl, raises)

-- A dry run does nothing and ends with 0, a run without a webhook does nothing and ends with 2. Any
-- other run posts the parts of its text in turn, or none with `--no-discord`. If one is refused the
-- run raises, and has done nothing but post up to that one. If not it ends with 0: after the posts it
-- has saved the signatures of this week, once, and only then, exactly if a signature is new, has it
-- commented on the issue that is open, or opened one if none is.
pub run_digest-IsRun :
    (is_space : ℕ → Bool) (write : List Line → List (List ℕ) → List ℕ) (o : Outside)
    (options : Options) (end : ℕ) (rep : List (Key × Group)) (state : Option (List (List ℕ × Seen)))
    (stale : List (List ℕ))
    → let prev = signatures_or_none state in
      let text = write (compose end rep prev (is_first_run state)) stale in
      let parts = if options.no_discord then [] else split_discord is_space 1900 text in
      let run = run_digest is_space write o options end rep state stale in
      (options.dry_run ≡ true → (run.effects ≡ []) × (run.code ≡ some 0))
      × (options.dry_run ≡ false
          → options.has_webhook ≡ false
          → (run.effects ≡ []) × (run.code ≡ some 2))
      × (options.dry_run ≡ false
          → options.has_webhook ≡ true
          → (run.code ≡ (if all_accepted o.accepts parts then some 0 else none))
            × IsRun
                (sent_of o.accepts parts)
                (save_state (next_signatures end rep prev) end)
                o.open_issue
                (new_keys rep prev)
                (all_accepted o.accepts parts)
                run.effects)
unfolding run_digest
run_digest-IsRun is_space write o options end rep state stale =
    let prev = signatures_or_none state in
    let text = write (compose end rep prev (is_first_run state)) stale in
    let parts = if options.no_discord then [] else split_discord is_space 1900 text in
    let (sent, all) = post_parts-sent_of o.accepts parts in
    let posts : post_parts o.accepts parts
        ≡ (posts_of (sent_of o.accepts parts), all_accepted o.accepts parts) =
      ap₂ (λ a b. (a, b)) sent all in
    (
      λ dry. rw (dry, run_digest) (refl, refl),
      λ dry hook. rw (dry, hook, run_digest) (refl, refl),
      λ dry hook.
          rw (dry, hook, run_digest)
            (run_of-Ends o end rep prev (post_parts o.accepts parts) (sent_of o.accepts parts)
              (all_accepted o.accepts parts) posts),
    )
