-- ===== src/Gemini/Keys/Turn.antt =====
-- Which key `_select_next_api_key` takes: the first one, in the order of rotation, that is not on
-- cooldown.
use mediahub_configs.Prelude.{
  ℕ, zero, suc, ◌+◌, ◌-◌, ◌≤◌, ◌<◌, ◌≡◌, Bool, true, false, Option, none, some, List, arith,
  Bool-cases, Option-cases, inl, inr, sym, subst, ◌∙◌, get_elem?, get_elem?_of_lt, length, ltb,
}
use native.Mathlib.Nat.{mod-lt}
use native.Mathlib.Decide.{ℕ_discrete}
use mediahub_configs.Prelude.Equality.{Eq}
use mediahub_configs.Prelude.Dict.{get, get-pop}
use mediahub_configs.Gemini.Keys.{is_key_on_cooldown, candidate_index, select_from}

-- The clock does not go back.
abbrev pub Rises : (ℕ → ℕ) → Type 0
Rises clock = (a b : ℕ) → a ≤ b → clock a ≤ clock b

module _ {K : Type 0} ⦃e : Eq K⦄ where
  -- The key rests at that time.
  abbrev pub rests : List (K × ℕ) → K → ℕ → Bool
  rests cooldowns key now = elim (get key cooldowns) [
    | none ↦ false
    | some expires_at ↦ ltb now expires_at
  ]

  is_key_on_cooldown-rests :
      (key : K) (now : ℕ) (cooldowns : List (K × ℕ))
      → ((is_key_on_cooldown key now cooldowns).0 ≡ rests cooldowns key now)
  unfolding is_key_on_cooldown
  is_key_on_cooldown-rests key now cooldowns = ground arith

  -- Looking at a key changes nothing that can be seen from then on.
  rests-is_key_on_cooldown :
      (key j : K) (now t : ℕ) (cooldowns : List (K × ℕ))
      → now ≤ t
      → rests (is_key_on_cooldown key now cooldowns).1 j t ≡ rests cooldowns j t
  unfolding is_key_on_cooldown
  rests-is_key_on_cooldown key j now t cooldowns h =
      ground (arith, get-pop key j cooldowns, e.beq_iff key j)

  module _ (clock : ℕ → ℕ) (keys : List K) (start : Option ℕ) where
    -- The key that is looked at after `p` steps, if it rests then.
    pub record RestsAt (cooldowns : List (K × ℕ)) (p : ℕ) : Type 0 where
      pub key : K
      pub here : get_elem? keys (candidate_index start p (length keys)) ≡ some key
      pub rest : rests cooldowns key (clock p) ≡ true

    -- The key `k` at the index `i` does not rest when it is looked at, after some number of steps
    -- from `offset` on, and all those looked at before do.
    pub record IsFirstFree (cooldowns : List (K × ℕ)) (offset rounds i : ℕ) (k : K) : Type 0 where
      pub steps : ℕ
      pub within : (offset ≤ steps) × (steps < offset + rounds)
      pub index : i ≡ candidate_index start steps (length keys)
      pub here : get_elem? keys i ≡ some k
      pub free : rests cooldowns k (clock steps) ≡ false
      pub before : (p : ℕ) → offset ≤ p → p < steps → RestsAt cooldowns p

    -- Whoever rests after one more look rested before it.
    RestsAt-back :
        (rises : Rises clock) (key : K) (offset p : ℕ) (cooldowns : List (K × ℕ))
        → offset ≤ p
        → RestsAt (is_key_on_cooldown key (clock offset) cooldowns).1 p
        → RestsAt cooldowns p
    RestsAt-back rises key offset p cooldowns h r = record {
      key = r.key;
      here = r.here;
      rest =
          sym (
            rests-is_key_on_cooldown key r.key (clock offset) (clock p) cooldowns
              (rises offset p h))
          ∙ r.rest;
    }

    abbrev index_at : ℕ → ℕ
    index_at offset = candidate_index start offset (length keys)

    abbrev look : K → ℕ → List (K × ℕ) → List (K × ℕ)
    look key offset cooldowns = (is_key_on_cooldown key (clock offset) cooldowns).1

    select_from-absent :
        (rounds offset : ℕ) (cooldowns : List (K × ℕ))
        → get_elem? keys (index_at offset) ≡ none
        → (select_from clock keys start (suc rounds) offset cooldowns).0 ≡ none
    unfolding select_from
    select_from-absent rounds offset cooldowns h = ground arith

    select_from-free :
        (rounds offset : ℕ) (cooldowns : List (K × ℕ)) (key : K)
        → get_elem? keys (index_at offset) ≡ some key
        → rests cooldowns key (clock offset) ≡ false
        → (select_from clock keys start (suc rounds) offset cooldowns).0
          ≡ some (index_at offset, key)
    unfolding select_from
    select_from-free rounds offset cooldowns key h free =
        let c = is_key_on_cooldown-rests key (clock offset) cooldowns ∙ free in ground arith

    select_from-rests :
        (rounds offset : ℕ) (cooldowns : List (K × ℕ)) (key : K)
        → get_elem? keys (index_at offset) ≡ some key
        → rests cooldowns key (clock offset) ≡ true
        → (select_from clock keys start (suc rounds) offset cooldowns).0
          ≡ (select_from clock keys start rounds (offset + 1) (look key offset cooldowns)).0
    unfolding select_from
    select_from-rests rounds offset cooldowns key h rest =
        let c = is_key_on_cooldown-rests key (clock offset) cooldowns ∙ rest in ground arith

    -- The key looked at first rests, and so do those looked at after it.
    RestsAt-from :
        (rises : Rises clock) (offset p : ℕ) (cooldowns : List (K × ℕ)) (key : K)
        → get_elem? keys (index_at offset) ≡ some key
        → rests cooldowns key (clock offset) ≡ true
        → offset ≤ p
        → (offset + 1 ≤ p → RestsAt (look key offset cooldowns) p)
        → RestsAt cooldowns p
    RestsAt-from rises offset p cooldowns key h rest lo later = elim (ℕ_discrete offset p) [
      | yes q ↦ subst (RestsAt cooldowns) q (record { key = key; here = h; rest = rest })
      | no q ↦ RestsAt-back rises key offset p cooldowns lo (later (omega arith))
    ]

    pub select_from-IsFirstFree :
        (rises : Rises clock) (rounds offset : ℕ) (cooldowns : List (K × ℕ)) (i : ℕ) (k : K)
        → (select_from clock keys start rounds offset cooldowns).0 ≡ some (i, k)
        → IsFirstFree cooldowns offset rounds i k
    select_from-IsFirstFree rises zero offset cooldowns i k h = unfold select_from in cc
    select_from-IsFirstFree rises (suc rounds) offset cooldowns i k h =
        elim (Option-cases (get_elem? keys (index_at offset))) [
          | inl absent ↦ absurd (cc (select_from-absent rounds offset cooldowns absent))
          | inr present ↦
              let (key, q) = present in
              elim (Bool-cases (rests cooldowns key (clock offset))) [
                | inl rest ↦
                    let t =
                      select_from-IsFirstFree rises rounds (offset + 1) (look key offset cooldowns)
                        i k (sym (select_from-rests rounds offset cooldowns key q rest) ∙ h) in
                    record {
                      steps = t.steps;
                      within = omega (arith, t.within);
                      index = t.index;
                      here = t.here;
                      free =
                          sym (
                            rests-is_key_on_cooldown key k (clock offset) (clock t.steps) cooldowns
                              (rises offset t.steps (omega (arith, t.within))))
                          ∙ t.free;
                      before = λ p lo hi.
                          RestsAt-from rises offset p cooldowns key q rest lo
                            (λ lo'. t.before p lo' hi);
                    }
                | inr free ↦
                    let found = select_from-free rounds offset cooldowns key q free in
                    record {
                      steps = offset;
                      within = omega arith;
                      index = ground (arith, found);
                      here = ground (arith, found);
                      free = ground (arith, found);
                      before = λ p lo hi. absurd (omega arith);
                    }
              ]
        ]

    candidate :
        (offset : ℕ) → 0 < length keys → (k : K) × (get_elem? keys (index_at offset) ≡ some k)
    candidate offset h = get_elem?_of_lt keys (index_at offset) (in_range start)
      where
        in_range : (s : Option ℕ) → candidate_index s offset (length keys) < length keys
        in_range none = mod-lt (offset - 1) h
        in_range (some i) = mod-lt (i + offset) h

    pub select_from-none :
        (rises : Rises clock) (rounds offset : ℕ) (cooldowns : List (K × ℕ))
        → 0 < length keys
        → (select_from clock keys start rounds offset cooldowns).0 ≡ none
        → (p : ℕ) → offset ≤ p
        → p < offset + rounds
        → RestsAt cooldowns p
    select_from-none rises zero offset cooldowns some_key h p lo hi = absurd (omega arith)
    select_from-none rises (suc rounds) offset cooldowns some_key h p lo hi =
        let (key, q) = candidate offset some_key in
        elim (Bool-cases (rests cooldowns key (clock offset))) [
          | inl rest ↦ RestsAt-from rises offset p cooldowns key q rest lo λ lo'.
              select_from-none rises rounds (offset + 1) (look key offset cooldowns) some_key
                (sym (select_from-rests rounds offset cooldowns key q rest) ∙ h) p lo' (omega arith)
          | inr free ↦ absurd (cc (select_from-free rounds offset cooldowns key q free))
        ]
