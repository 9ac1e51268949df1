-- ===== src/Voting/Vote/Quorum.antt =====
-- The quorum of `_vote_slot`: the size of the set of pass ids.
use mediahub_configs.Prelude.{
  ℕ, suc, ◌<◌, ◌≡◌, inl, inr, refl, true, false, List, [], ◌∷◌, length, any, ◌==◌, arith, ◌∈◌,
  Bool-cases, ◌↔◌, mem_of_any, any_of_mem, ap, sym, ◌∙◌, ==_iff,
}
use mediahub_configs.Prelude.Equality.{list_eq, nat_eq}
use mediahub_configs.Voting.Words.{Word}
use mediahub_configs.Voting.Vote.{contributing_passes}

pub contributing_passes-mem :
    (v : Word) (ws : List Word) → v ∈ ws → v.pass_id ∈ contributing_passes ws
unfolding contributing_passes
contributing_passes-mem v [] m = absurd m
contributing_passes-mem v (w ∷ ws) m =
    elim (Bool-cases (any (λ p. p == w.pass_id) (contributing_passes ws))) [
      | inl e ↦ rw e (here (contributing_passes-mem v ws) e m)
      | inr e ↦ rw e (there (contributing_passes-mem v ws) m)
    ]
  where
    here :
        (v ∈ ws → v.pass_id ∈ contributing_passes ws)
        → any (λ p. p == w.pass_id) (contributing_passes ws) ≡ true
        → v ∈ w ∷ ws
        → v.pass_id ∈ contributing_passes ws
    here rec e (inl q) =
        let (p, m', t) = mem_of_any (λ p. p == w.pass_id) (contributing_passes ws) e in
        let same : p ≡ v.pass_id =
          (==_iff p w.pass_id).0 t ∙ ap (λ (x : Word). x.pass_id) (sym q) in
        rw same at m'
    here rec e (inr m') = rec m'

    there :
        (v ∈ ws → v.pass_id ∈ contributing_passes ws)
        → v ∈ w ∷ ws
        → v.pass_id ∈ w.pass_id ∷ contributing_passes ws
    there rec (inl q) = inl (ap (λ (x : Word). x.pass_id) q)
    there rec (inr m') = inr (rec m')

pub mem-contributing_passes :
    (p : ℕ) (ws : List Word) → p ∈ contributing_passes ws → (v : Word) × (v ∈ ws) × (p ≡ v.pass_id)
unfolding contributing_passes
mem-contributing_passes p [] m = absurd m
mem-contributing_passes p (w ∷ ws) m =
    elim (Bool-cases (any (λ q. q == w.pass_id) (contributing_passes ws))) [
      | inl e ↦ let (v, i, q) = mem-contributing_passes p ws (rw e at m) in (v, inr i, q)
      | inr e ↦ elim (rw e at m) [
        | inl q ↦ (w, inl refl, q)
        | inr r ↦ let (v, i, q) = mem-contributing_passes p ws r in (v, inr i, q)
      ]
    ]

-- Fewer than two passes have a word in the slot: all its words are of one pass.
abbrev pub IsOnePass : List Word → Type 0
IsOnePass slot = (v w : Word) → v ∈ slot → w ∈ slot → v.pass_id ≡ w.pass_id

short-eq : (xs : List ℕ) (a b : ℕ) → length xs < 2 → a ∈ xs → b ∈ xs → a ≡ b
short-eq [] a b h m n = absurd m
short-eq (x ∷ []) a b h (inl p) (inl q) = p ∙ sym q
short-eq (x ∷ []) a b h (inl p) (inr n) = absurd n
short-eq (x ∷ []) a b h (inr m) n = absurd m
short-eq (x ∷ y ∷ xs) a b h m n = absurd (omega arith)

length-contributing_passes :
    (slot : List Word) → IsOnePass slot → length (contributing_passes slot) < 2
unfolding contributing_passes
length-contributing_passes [] one = omega arith
length-contributing_passes (w ∷ ws) one =
    elim (Bool-cases (any (λ p. p == w.pass_id) (contributing_passes ws))) [
      | inl e ↦ rw e (length-contributing_passes ws (λ a b m n. one a b (inr m) (inr n)))
      | inr e ↦ rw e (only (contributing_passes ws) refl e)
    ]
  where
    only :
        (ps : List ℕ)
        → contributing_passes ws ≡ ps
        → any (λ p. p == w.pass_id) (contributing_passes ws) ≡ false
        → suc (length (contributing_passes ws)) < 2
    only [] q e = rw q (omega arith)
    only (p ∷ ps) q e =
        let (v, m, t) = mem-contributing_passes p ws (rw q (inl refl)) in
        let same : p ≡ w.pass_id = t ∙ one v w (inr m) (inl refl) in
        cc (
          any_of_mem p (λ c. c == w.pass_id) (contributing_passes ws) (rw q (inl refl))
              ((==_iff p w.pass_id).1 same),
          e,
        )

-- The quorum is two passes: the test on the set's length says whether all words are of one pass.
pub quorum_iff : (slot : List Word) → (length (contributing_passes slot) < 2) ↔ IsOnePass slot
quorum_iff slot = (
  λ h v w m n.
      short-eq _ _ _ h (contributing_passes-mem v slot m) (contributing_passes-mem w slot n),
  length-contributing_passes slot,
)
