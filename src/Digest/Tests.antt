-- ===== src/Digest/Tests.antt =====
-- Runs of scripts/log-digest.py, and the theorems on it at concrete inputs.
use mathlib.Core.List.Perm
use mathlib.Core.List.{Perm}
use mediahub_configs.Prelude.{
  ℕ, ◌≡◌, ◌≤◌, ◌<◌, refl, Bool, true, false, none, some, List, [], ◌∷◌, ◌++◌, take, length, All,
  concat, if◌then◌else◌, ltb, arith, ap, subst, sym,
}
use mediahub_configs.Prelude.Equality.{◌=?◌, list_eq, nat_eq, pair_eq}
use mediahub_configs.Prelude.Dict.{get, put}
use mediahub_configs.Prelude.Text.{split_on}
use mediahub_configs.Digest.Fetch.{Entry, Stream, fetch_errors, fetch_from, page_of, page_limit}
use mediahub_configs.Digest.Fetch.Paging.{entries_from}
use mediahub_configs.Digest.Fetch.Complete.{Serves, fetch_errors_complete}
use mediahub_configs.Digest.Groups.{Texts, Key, Group, build, is_repeating}
use mediahub_configs.Digest.Groups.Laws.{get-build, summed, entries_of}
use mediahub_configs.Digest.Groups.Summary.{summed_lem, IsSummary}
use mediahub_configs.Digest.Compose.{
  Seen, new_keys, still_keys, gone_from, next_signatures, keys_of,
}
use mediahub_configs.Digest.Compose.Weeks.{digest_again}
use mediahub_configs.Digest.Discord.{
  split_discord, split_discord-bounds, concat-split_discord, is_blank,
}
use mediahub_configs.Digest.Main.{Outside, Options, run_digest, freshness_code, save_state}
use mediahub_configs.Digest.Main.Order.{run_digest-IsRun, IsRun, sent_of, all_accepted}

abbrev entry : ℕ → ℕ → Entry
entry t message = record { container = 97 ∷ []; host = 105 ∷ []; at_ns = t; line = message ∷ [] }

abbrev store : List Entry
store = entry 3 1 ∷ entry 5 1 ∷ entry 8 2 ∷ []

-- Each entry in a stream of its own.
abbrev stream_of : Entry → Stream
stream_of e = record {
  container_label = some e.container;
  host_label = some e.host;
  values = (e.at_ns, e.line) ∷ [];
}

abbrev streams_of : List Entry → List Stream
streams_of [] = []
streams_of (e ∷ es) = stream_of e ∷ streams_of es

abbrev loki : ℕ → List Stream
loki cur = streams_of (take page_limit (entries_from cur store))

page_of-streams_of : (es : List Entry) → page_of (streams_of es) ≡ es
unfolding page_of
page_of-streams_of [] = refl
page_of-streams_of (e ∷ es) = ap (λ l. e ∷ l) (page_of-streams_of es)

loki-Serves : Serves loki page_limit store
loki-Serves cur =
    let page = take page_limit (entries_from cur store) in
    subst (λ l. Perm l page) (sym (page_of-streams_of page)) (Perm.refl page)

fetch_errors_complete_example :
    (es : List Entry) × ((fetch_errors loki 1 9 ≡ some es) × Perm es store)
fetch_errors_complete_example =
    fetch_errors_complete loki store 1 9 (omega arith)
      ((omega arith, (omega arith, tt)), ((omega arith, tt), (tt, tt)))
      (omega arith, (omega arith, (omega arith, tt)))
      (omega arith, (omega arith, (omega arith, tt))) loki-Serves

-- Pages of two: the second query starts behind the latest entry of the first page.
abbrev loki_2 : ℕ → List Stream
loki_2 cur = streams_of (take 2 (entries_from cur store))

two_pages : fetch_from loki_2 2 20 1 ≡ some store
unfolding fetch_from
two_pages = refl

abbrev texts : Texts
texts = record {
  is_low_level = λ line. false;
  is_strong = λ line. false;
  is_ignored = λ line. false;
  normalize = λ line. line;
  strip_time = λ line. line;
  redact_plain = λ line. line;
  day_of = λ t. t ∷ [];
}

abbrev key_a : Key
key_a = (97 ∷ [], 1 ∷ [])

abbrev five_days : List Entry
five_days = entry 1 1 ∷ entry 1 1 ∷ entry 2 1 ∷ entry 3 1 ∷ entry 3 1 ∷ entry 4 2 ∷ []

get-build_example :
    get key_a (build texts five_days)
    ≡ elim (summed texts none (entries_of texts key_a five_days)) [
      | none ↦ none
      | some g ↦ if is_repeating g then some g else none
    ]
get-build_example = get-build texts key_a five_days

keys_of-five_days : keys_of (build texts five_days) ≡ key_a ∷ []
unfolding build put get
keys_of-five_days = refl

summed_lem_example :
    (s : Group) × ((summed texts none (entry 1 1 ∷ entry 2 1 ∷ []) ≡ some s)
      × IsSummary texts s (entry 1 1 ∷ entry 2 1 ∷ []))
summed_lem_example = summed_lem texts (entry 1 1) (entry 2 1 ∷ [])

abbrev old_state : List (List ℕ × Seen)
old_state = (98 ∷ 124 ∷ 7 ∷ [], record { sig = 7 ∷ []; first_digest = 4 }) ∷ []

abbrev groups : List (Key × Group)
groups =
    (
      key_a,
      record {
        n = 30;
        days = [];
        first = some 1;
        last = some 3;
        sample = [];
        host = [];
        variants = [];
      },
    )
    ∷ []

gone_b : gone_from old_state groups ≡ (98 ∷ [], 7 ∷ []) ∷ []
unfolding gone_from
gone_b = refl

digest_again_example :
    (new_keys groups (next_signatures 9 groups old_state) ≡ [])
    × ((still_keys groups (next_signatures 9 groups old_state) ≡ keys_of groups)
        × (gone_from (next_signatures 9 groups old_state) groups ≡ []))
digest_again_example = digest_again groups old_state 9

abbrev is_space : ℕ → Bool
is_space c = c =? 32

abbrev two_lines : List ℕ
two_lines = 97 ∷ 98 ∷ 10 ∷ 99 ∷ []

two_parts : split_discord is_space 4 two_lines ≡ (97 ∷ 98 ∷ 10 ∷ []) ∷ (99 ∷ 10 ∷ []) ∷ []
unfolding split_discord split_on
two_parts = refl

short_lines : All (λ ln. length ln < 4) (split_on 10 two_lines)
unfolding split_on
short_lines = (omega arith, (omega arith, tt))

split_discord-bounds_example : All (λ part. length part ≤ 4) (split_discord is_space 4 two_lines)
split_discord-bounds_example = split_discord-bounds is_space 4 two_lines short_lines

concat-split_discord_example :
    (tail : List ℕ) × ((is_blank is_space tail ≡ true)
      × (concat (split_discord is_space 4 two_lines) ++ tail ≡ two_lines ++ 10 ∷ []))
concat-split_discord_example = concat-split_discord is_space 4 two_lines

abbrev outside : Outside
outside = record { accepts = λ part. ltb (length part) 3; open_issue = some 71 }

abbrev options : Options
options = record { dry_run = false; no_discord = false; has_webhook = true }

run_digest-IsRun_example :
    let run = run_digest is_space (λ lines stale. two_lines) outside options 9 groups none [] in
    let parts = split_discord is_space 1900 two_lines in
    (options.dry_run ≡ true → (run.effects ≡ []) × (run.code ≡ some 0))
    × (options.dry_run ≡ false
        → options.has_webhook ≡ false
        → (run.effects ≡ []) × (run.code ≡ some 2))
    × (options.dry_run ≡ false
        → options.has_webhook ≡ true
        → (run.code ≡ (if all_accepted outside.accepts parts then some 0 else none))
          × IsRun
              (sent_of outside.accepts parts)
              (save_state (next_signatures 9 groups []) 9)
              outside.open_issue
              (new_keys groups [])
              (all_accepted outside.accepts parts)
              run.effects)
run_digest-IsRun_example =
    run_digest-IsRun is_space (λ lines stale. two_lines) outside options 9 groups none []

a_host_is_silent :
    freshness_code 9000000000000 ((105 ∷ [], some 8000000000000) ∷ (114 ∷ [], none) ∷ []) ≡ 1
unfolding freshness_code
a_host_is_silent = refl
