-- ===== src/Gemini/Keys/Pick.antt =====
-- `_select_next_api_key` and `_handle_rate_limited_key` as a whole.
use native.Mathlib.Nat.{mod-lt, mod-eq_of_lt, mod-add-mod, add-mod_right}
use native.Mathlib.Decide.{dec_lt}
use mediahub_configs.Prelude.{
  ℕ, zero, suc, ◌+◌, ◌-◌, ◌%◌, ◌≤◌, ◌<◌, ◌≡◌, ◌≢◌, refl, true, false, Option, none, some, List, [],
  ◌∷◌, arith, Option-cases, inl, inr, sym, subst, ◌∙◌, ap, get_elem?, length, max,
}
use mediahub_configs.Prelude.Equality.{Eq}
use mediahub_configs.Prelude.Dict.{get-put}
use mediahub_configs.Gemini.Keys.{
  candidate_index, select_from, selected, select_next_api_key, Rotation, RetryAfter,
  get_retry_after_seconds, set_key_cooldown, rotated, handle_rate_limited_key,
}
use mediahub_configs.Gemini.Keys.Turn.{
  rests, IsFirstFree, Rises, select_from-IsFirstFree, select_from-none,
}

-- Every index is reached within as many steps as there are keys, from wherever the turn is.
reach :
    (start : Option ℕ) (n i : ℕ)
    → i < n
    → (p : ℕ) × (1 ≤ p) × (p < 1 + n) × (candidate_index start p n ≡ i)
reach none n i h = (i + 1, omega arith, omega arith, ap (λ m. m % n) (omega arith) ∙ mod-eq_of_lt h)
reach (some s) n i h = elim (dec_lt (s % n) i) [
  | yes ahead ↦ (
    i - s % n,
    omega arith,
    omega arith,
    sym (mod-add-mod s n (i - s % n)) ∙ ap (λ m. m % n) (omega arith) ∙ mod-eq_of_lt h,
  )
  | no behind ↦
      let small : s % n < n = mod-lt s (omega arith) in
      (
        i + n - s % n,
        omega arith,
        omega arith,
        sym (mod-add-mod s n (i + n - s % n))
            ∙ ap (λ m. m % n) (omega arith)
            ∙ add-mod_right i n
            ∙ mod-eq_of_lt h,
      )
]

module _ {K : Type 0} ⦃e : Eq K⦄ where
  get_elem?-lt : (xs : List K) (i : ℕ) (k : K) → get_elem? xs i ≡ some k → i < length xs
  get_elem?-lt [] i k h = absurd (cc)
  get_elem?-lt (x ∷ xs) zero k h = omega arith
  get_elem?-lt (x ∷ xs) (suc i) k h = omega (arith, get_elem?-lt xs i k h)

  module _ (clock : ℕ → ℕ) (r : Rotation K) where
    abbrev run : Option (ℕ × K) × List (K × ℕ)
    run = select_from clock r.api_keys r.current_api_index (length r.api_keys) 1 r.cooldowns

    selected-some :
        (p : Option (ℕ × K) × List (K × ℕ)) (k : K)
        → (selected r p).current_api_key ≡ some k
        → (i : ℕ) × ((selected r p).current_api_index ≡ some i) × (p.0 ≡ some (i, k))
    selected-some (none, d) k h = absurd (cc)
    selected-some (some (i, j), d) k h = (i, refl, ground arith)

    selected-none :
        (p : Option (ℕ × K) × List (K × ℕ)) → (selected r p).current_api_key ≡ none → p.0 ≡ none
    selected-none (none, d) h = refl
    selected-none (some (i, j), d) h = absurd (cc)

    -- If the clock rises, the key that is taken is the first in the order of rotation that does not
    -- rest when it is looked at: all before it rest.
    pub select_next_api_key-IsFirstFree :
        (rises : Rises clock) (k : K)
        → (select_next_api_key clock r).current_api_key ≡ some k
        → (i : ℕ) × ((select_next_api_key clock r).current_api_index ≡ some i)
          × IsFirstFree clock r.api_keys r.current_api_index r.cooldowns 1 (length r.api_keys) i k
    unfolding select_next_api_key
    select_next_api_key-IsFirstFree rises k h =
        let (i, at_i, found) = selected-some run k h in
        (
          i,
          at_i,
          select_from-IsFirstFree clock r.api_keys r.current_api_index rises (length r.api_keys) 1
              r.cooldowns i k found,
        )

    -- If the clock rises and no key is taken, each configured key rests at the reading of the clock at
    -- which it is looked at.
    select_next_api_key-none :
        (rises : Rises clock) (i : ℕ) (k : K)
        → (select_next_api_key clock r).current_api_key ≡ none
        → get_elem? r.api_keys i ≡ some k
        → (p : ℕ) × (rests r.cooldowns k (clock p) ≡ true)
    unfolding select_next_api_key
    select_next_api_key-none rises i k h at_i =
        let fits = get_elem?-lt r.api_keys i k at_i in
        let (p, lo, hi, q) = reach r.current_api_index (length r.api_keys) i fits in
        let t =
          select_from-none clock r.api_keys r.current_api_index rises (length r.api_keys) 1
            r.cooldowns (omega arith) (selected-none run h) p lo hi in
        let same : t.key ≡ k = ground (arith, t.here) in
        (p, subst (λ c. rests r.cooldowns c (clock p) ≡ true) same t.rest)

    -- The configured keys stay.
    api_keys-select_next_api_key : (select_next_api_key clock r).api_keys ≡ r.api_keys
    unfolding select_next_api_key
    api_keys-select_next_api_key = ground arith

  -- If the clock rises, and has not reached the end of the cooldown when the keys are looked at, a key
  -- that was rate limited is not taken again: where `_handle_rate_limited_key` returns, the key is
  -- another one.
  pub handle_rate_limited_key-ne :
      (now : ℕ) (clock : ℕ → ℕ) (retry_after : RetryAfter) (r r' : Rotation K) (k : K)
      → Rises clock
      → ((p : ℕ) → clock p < now + max 1 (get_retry_after_seconds retry_after))
      → r.current_api_key ≡ some k
      → handle_rate_limited_key now clock retry_after r ≡ rotated r'
      → (next : K) × (r'.current_api_key ≡ some next) × (next ≢ k)
  handle_rate_limited_key-ne now clock retry_after r r' k rises soon has_key ran =
      elim (Option-cases taken.current_api_key) [
        | inl nothing ↦ absurd (unfold handle_rate_limited_key in ground arith)
        | inr found ↦
            let (next, q) = found in
            (
              next,
              (unfold handle_rate_limited_key in ground arith),
              λ same.
                  let turn = (select_next_api_key-IsFirstFree clock limited rises next q).2 in
                  other next turn.steps same turn.free,
            )
      ]
    where
      limited : Rotation K
      limited = record r {
        cooldowns = set_key_cooldown k (get_retry_after_seconds retry_after) now r.cooldowns;
      }

      taken : Rotation K
      taken = select_next_api_key clock limited

      other : (next : K) (p : ℕ) → next ≡ k → rests limited.cooldowns next (clock p) ≡ false → ⊥
      other next p same free =
          unfold set_key_cooldown in
          ground (
            arith,
            soon p,
            get-put k next (now + max 1 (get_retry_after_seconds retry_after)) r.cooldowns,
            e.beq_iff k next,
          )
