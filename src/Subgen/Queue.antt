-- ===== src/Subgen/Queue.antt =====
-- `DeduplicatedQueue`. A set is a list without repetition; the array of the heap is a list in any
-- order, since `heapq` only promises that `get` takes a smallest entry. Times are numbers.
pub mod Counts
pub mod Steps
pub mod Order
pub mod Items
use mediahub_configs.Prelude.{
  ℕ, ◌+◌, Bool, true, false, not, ◌&&◌, ◌||◌, Option, none, some, List, [], ◌∷◌, ◌++◌,
  if◌then◌else◌, length, keep_if, any, ltb, ◌==◌,
}
use mediahub_configs.Prelude.Equality.{Eq, ◌=?◌}

-- `item.get("type", "transcribe")`: anything else counts as "transcribe".
pub data TaskType : Type 0 where
  detect_language : TaskType
  asr : TaskType
  transcribe : TaskType

-- A task, with the path or id that it is known by, and what else is in its dict.
pub record Task (P D : Type 0) : Type 0 where
  pub path : P
  pub type : TaskType
  pub content : D

pub record Entry (P D : Type 0) : Type 0 where
  pub priority : ℕ
  pub time : ℕ
  pub item : Task P D

abbrev pub priority_of : TaskType → ℕ
priority_of detect_language = 0
priority_of asr = 1
priority_of transcribe = 2

-- `taken` holds the items that a `get` has taken off the heap but not yet registered: it does this
-- in a second step, under the lock.
pub record Queue (P D : Type 0) : Type 0 where
  pub heap : List (Entry P D)
  pub queued : List P
  pub processing : List P
  pub taken : List (Task P D)

module _ {P D : Type 0} where
  abbrev pub empty_queue : Queue P D
  empty_queue = record { heap = []; queued = []; processing = []; taken = [] }

  -- The order of the tuples `(priority, time, item)`; items would be compared, and raise, only at
  -- the same time.
  abbrev pub entry_lt : Entry P D → Entry P D → Bool
  entry_lt a b = ltb a.priority b.priority || (a.priority == b.priority && ltb a.time b.time)

  -- A smallest entry, and the others.
  pub smallest : Entry P D → List (Entry P D) → Entry P D × List (Entry P D)
  smallest x [] = (x, [])
  smallest x (y ∷ ys) =
      let found = smallest y ys in
      if entry_lt found.0 x then (found.0, x ∷ found.1) else (x, y ∷ ys)

  -- `super().get`, of the heap; with nothing in it it waits, or raises `queue.Empty`.
  pub pop_from : List (Entry P D) → Queue P D → Option (Task P D × Queue P D)
  unfolding smallest
  pop_from [] q = none
  pop_from (x ∷ xs) q =
      let found = smallest x xs in
      some (found.0.item, record q { heap = found.1; taken = found.0.item ∷ q.taken })

  unfoldable pub pop : Queue P D → Option (Task P D × Queue P D)
  unfolding pop_from
  pop q = pop_from q.heap q

abbrev pub is_empty : {A : Type 0} → List A → Bool
is_empty [] = true
is_empty (x ∷ xs) = false

module _ {P : Type 0} ⦃e : Eq P⦄ where
  abbrev pub holds : P → List P → Bool
  holds p set = any (λ q. q =? p) set

  pub set_add : P → List P → List P
  set_add p set = if holds p set then set else p ∷ set

  abbrev pub discard : P → List P → List P
  discard p set = keep_if (λ q. not (q =? p)) set

module _ {P D : Type 0} ⦃e : Eq P⦄ where
  -- Whether it was put in, and the queue.
  unfoldable pub put : Task P D → ℕ → Queue P D → Bool × Queue P D
  unfolding set_add
  put task now q =
      if not (holds task.path q.queued) && not (holds task.path q.processing)
      then (
        true,
        record q {
          heap = record { priority = priority_of task.type; time = now; item = task } ∷ q.heap;
          queued = set_add task.path q.queued;
        },
      )
      else (false, q)

  -- The task that its worker has registered.
  abbrev pub without : P → List (Task P D) → List (Task P D)
  without p [] = []
  without p (t ∷ ts) = let rest = without p ts in if t.path =? p then ts else t ∷ rest

  unfoldable pub register : Task P D → Queue P D → Queue P D
  unfolding set_add
  register task q = record q {
    queued = discard task.path q.queued;
    processing = set_add task.path q.processing;
    taken = without task.path q.taken;
  }

  -- Both steps of `get`, when no other thread comes between.
  unfoldable pub get : Queue P D → Option (Task P D × Queue P D)
  unfolding pop register
  get q = elim (pop q) [ none ↦ none | some popped ↦ some (popped.0, register popped.0 popped.1) ]

  unfoldable pub mark_done : Task P D → Queue P D → Queue P D
  mark_done task q = record q { processing = discard task.path q.processing }

  unfoldable pub is_idle : Queue P D → Bool
  is_idle q = is_empty q.heap && (length q.processing == 0)

  unfoldable pub is_active : P → Queue P D → Bool
  is_active p q = holds p q.queued || holds p q.processing
