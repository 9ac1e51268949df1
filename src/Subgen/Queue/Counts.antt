-- ===== src/Subgen/Queue/Counts.antt =====
-- How often a path stands in the lists of a queue.
use mediahub_configs.Prelude.{ℕ, ◌+◌, ◌<◌, ◌≡◌, List, [], ◌∷◌, if◌then◌else◌, map, ltb, arith}
use mediahub_configs.Prelude.Equality.{Eq, ◌=?◌}
use mediahub_configs.Subgen.Queue.{Task, Entry, smallest, holds, set_add, discard, without}

module _ {P : Type 0} ⦃e : Eq P⦄ where
  abbrev pub count : P → List P → ℕ
  count p [] = 0
  count p (q ∷ qs) = if q =? p then 1 + count p qs else count p qs

  pub holds-count : (p : P) (set : List P) → holds p set ≡ ltb 0 (count p set)
  holds-count p [] = ground arith
  holds-count p (q ∷ qs) = ground (arith, holds-count p qs)

  pub count-set_add :
      (p r : P) (set : List P)
      → count p (set_add r set)
        ≡ (if holds r set then count p set else if r =? p then 1 + count p set else count p set)
  unfolding set_add
  count-set_add p r set = ground arith

  pub count-discard :
      (p r : P) (set : List P) → count p (discard r set) ≡ (if r =? p then 0 else count p set)
  count-discard p r [] = ground arith
  count-discard p r (q ∷ qs) =
      ground (arith, count-discard p r qs, e.beq_iff q p, e.beq_iff q r, e.beq_iff r p)

  module _ {D : Type 0} where
    abbrev pub path_of : Entry P D → P
    path_of x = x.item.path

    abbrev pub task_path : Task P D → P
    task_path t = t.path

    pub count-without :
        (p r : P) (ts : List (Task P D))
        → 0 < count r (map task_path ts)
        → count p (map task_path (without r ts)) + (if r =? p then 1 else 0)
          ≡ count p (map task_path ts)
    count-without p r [] h = absurd (omega arith)
    count-without p r (t ∷ ts) h =
        ground (arith, count-without p r ts, e.beq_iff t.path p, e.beq_iff t.path r, e.beq_iff r p)

    pub count-smallest :
        (p : P) (x : Entry P D) (xs : List (Entry P D))
        → count p (map path_of (smallest x xs).1)
            + (if path_of (smallest x xs).0 =? p then 1 else 0)
          ≡ count p (map path_of (x ∷ xs))
    unfolding smallest
    count-smallest p x [] = ground arith
    count-smallest p x (y ∷ ys) = ground (arith, count-smallest p y ys)
