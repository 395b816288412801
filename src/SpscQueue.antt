-- ===== src/SpscQueue.antt =====
-- oryx/spsc_queue.h: a bounded lock-free queue with an unbounded cache on the producer's side.
pub mod Fifo
pub mod Overlap
use oryxgame.Common.{
  ℕ, suc, ◌+◌, ◌≤◌, ◌<◌, ◌≡◌, Bool, true, false, Option, none, some, List, [], ◌∷◌, ◌++◌, ltb,
  if◌then◌else◌, length,
}

-- `boost::lockfree::spsc_queue<_T, capacity<size>>`, by what its documentation says of `push` and
-- `pop`: a queue, oldest first, that refuses exactly what is beyond its capacity.
pub record BoundedQueue (A : Type 0) : Type 1 where
  pub Queue : Type 0
  pub capacity : ℕ
  pub contents : Queue → List A
  pub push : Queue → A → Bool × Queue
  pub pop : Queue → Option A × Queue
  pub length_le : (q : Queue) → length (contents q) ≤ capacity
  pub push_accepts :
      (q : Queue) (a : A)
      → length (contents q) < capacity
      → ((push q a).0 ≡ true) × (contents (push q a).1 ≡ contents q ++ (a ∷ []))
  pub push_refuses :
      (q : Queue) (a : A)
      → capacity ≤ length (contents q)
      → ((push q a).0 ≡ false) × (contents (push q a).1 ≡ contents q)
  pub pop_empty : (q : Queue) → contents q ≡ [] → ((pop q).0 ≡ none) × (contents (pop q).1 ≡ [])
  pub pop_first :
      (q : Queue) (a : A) (rest : List A)
      → contents q ≡ a ∷ rest
      → ((pop q).0 ≡ some a) × (contents (pop q).1 ≡ rest)

-- `struct spsc_queue`
pub record Spsc (A Q : Type 0) : Type 0 where
  pub cache : List A
  pub queue : Q

module _ {A : Type 0} (b : BoundedQueue A) where
  -- The loop of `checkCache`, over the cache; it stops at the first element that does not fit.
  unfoldable pub move_cache : b.Queue → List A → ℕ × Spsc A b.Queue
  move_cache q [] = (0, record { cache = []; queue = q })
  move_cache q (a ∷ cache) =
      let (accepted, q') = b.push q a in
      let (moved, s) = move_cache q' cache in
      if accepted then (suc moved, s) else (0, record { cache = a ∷ cache; queue = q' })

  -- That an empty cache gives its memory back is not modelled.
  unfoldable pub check_cache : Spsc A b.Queue → ℕ × Spsc A b.Queue
  check_cache s = move_cache s.queue s.cache

  -- `push` up to its call of `checkCache`.
  unfoldable pub store : b.Queue → List A → A → Spsc A b.Queue
  store q cache a =
      let (accepted, q') = b.push q a in
      if ltb 0 (length cache)
      then record { cache = cache ++ (a ∷ []); queue = q }
      else if accepted
      then record { cache = cache; queue = q' }
      else record { cache = cache ++ (a ∷ []); queue = q' }

  unfoldable pub push : Spsc A b.Queue → A → Spsc A b.Queue
  push s a = (check_cache (store s.queue s.cache a)).1

  unfoldable pub pop : Spsc A b.Queue → Option A × Spsc A b.Queue
  pop s = let (first, q') = b.pop s.queue in (first, record s { queue = q' })
