-- ===== src/SpscQueue/Fifo.antt =====
-- The queue with its cache (oryx/spsc_queue.h) as one sequence of elements.
use oryxgame.Common.{
  ◌+◌, ◌<◌, ◌≡◌, refl, sym, ap, ap₂, ◌∙◌, ◌⊎◌, inl, inr, true, false, Option, none, some, List, [],
  ◌∷◌, ◌++◌, append-nil, append_assoc, arith, ltb, Bool-cases, length,
}
use oryxgame.SpscQueue.{BoundedQueue, Spsc, move_cache, check_cache, store, push, pop}

module _ {A : Type 0} (b : BoundedQueue A) where
  -- Everything that was pushed and not yet popped, oldest first.
  abbrev pub waiting : Spsc A b.Queue → List A
  waiting s = b.contents s.queue ++ s.cache

  -- What `checkCache` leaves: nothing in the cache, or a full queue.
  abbrev pub IsFlushed : Spsc A b.Queue → Type 0
  IsFlushed s = (s.cache ≡ []) ⊎ (length (b.contents s.queue) ≡ b.capacity)

  pub push_cases :
      (q : b.Queue) (a : A)
      → (((b.push q a).0 ≡ true) × (b.contents (b.push q a).1 ≡ b.contents q ++ (a ∷ [])))
        ⊎ (((b.push q a).0 ≡ false)
            × (b.contents (b.push q a).1 ≡ b.contents q)
            × (length (b.contents q) ≡ b.capacity))
  push_cases q a = elim (Bool-cases (ltb (length (b.contents q)) b.capacity)) [
    | inl room ↦ inl (b.push_accepts q a (ground arith))
    | inr full ↦ ground (arith, b.push_refuses q a, b.length_le q)
  ]

  move_cache_lem :
      (q : b.Queue) (cache : List A)
      → (waiting (move_cache b q cache).1 ≡ b.contents q ++ cache)
        × IsFlushed (move_cache b q cache).1
        × ((move_cache b q cache).0 + length (move_cache b q cache).1.cache ≡ length cache)
  unfolding move_cache
  move_cache_lem q [] = (refl, inl refl, omega arith)
  move_cache_lem q (a ∷ cache) = elim (push_cases q a) [
    | inl (accepted, held) ↦
        let ih = move_cache_lem (b.push q a).1 cache in
        rw accepted (
          ih.0 ∙ ap (λ front. front ++ cache) held ∙ append_assoc (b.contents q) (a ∷ []) cache,
          ih.1,
          omega arith,
        )
    | inr (refused, held, full) ↦
        rw refused
          (ap (λ front. front ++ (a ∷ cache)) held, inr (ap length held ∙ full), omega arith)
  ]

  -- `checkCache` neither loses nor reorders anything, leaves an empty cache or a full queue, and
  -- returns by how many the cache has shrunk.
  pub check_cache_lem :
      (s : Spsc A b.Queue)
      → (waiting (check_cache b s).1 ≡ waiting s)
        × IsFlushed (check_cache b s).1
        × ((check_cache b s).0 + length (check_cache b s).1.cache ≡ length s.cache)
  unfolding check_cache
  check_cache_lem s = move_cache_lem s.queue s.cache

  waiting-store :
      (q : b.Queue) (cache : List A) (a : A)
      → waiting (store b q cache a) ≡ (b.contents q ++ cache) ++ (a ∷ [])
  unfolding store
  waiting-store q (c ∷ cache) a =
      let busy : ltb 0 (length (c ∷ cache)) ≡ true = ground arith in
      rw busy (sym (append_assoc (b.contents q) (c ∷ cache) (a ∷ [])))
  waiting-store q [] a = elim (push_cases q a) [
    | inl (accepted, held) ↦
        rw accepted
          (append-nil _ ∙ held ∙ ap (λ front. front ++ (a ∷ [])) (sym (append-nil (b.contents q))))
    | inr (refused, held, full) ↦
        rw refused (ap (λ front. front ++ (a ∷ [])) (held ∙ sym (append-nil (b.contents q))))
  ]

  -- `push` puts the element last, also when the queue is full or older ones are still in the cache.
  pub waiting-push :
      (s : Spsc A b.Queue) (a : A)
      → (waiting (push b s a) ≡ waiting s ++ (a ∷ [])) × IsFlushed (push b s a)
  unfolding push
  waiting-push s a =
      let (kept, flushed, _) = check_cache_lem (store b s.queue s.cache a) in
      (kept ∙ waiting-store s.queue s.cache a, flushed)

  -- `pop` takes the oldest element; it finds none exactly when the queue behind the cache is empty.
  pub pop_lem :
      (s : Spsc A b.Queue)
      → (((pop b s).0 ≡ none) × (b.contents s.queue ≡ []) × (waiting (pop b s).1 ≡ waiting s))
        ⊎ ((a : A) × ((pop b s).0 ≡ some a) × (waiting s ≡ a ∷ waiting (pop b s).1))
  unfolding pop
  pop_lem s = from (b.contents s.queue) refl
    where
      from :
          (held : List A)
          → b.contents s.queue ≡ held
          → (((pop b s).0 ≡ none) × (b.contents s.queue ≡ []) × (waiting (pop b s).1 ≡ waiting s))
            ⊎ ((a : A) × ((pop b s).0 ≡ some a) × (waiting s ≡ a ∷ waiting (pop b s).1))
      from [] e = inl (
        (b.pop_empty s.queue e).0,
        e,
        ap (λ front. front ++ s.cache) ((b.pop_empty s.queue e).1 ∙ sym e),
      )
      from (a ∷ rest) e = inr (
        a,
        (b.pop_first s.queue a rest e).0,
        ap (λ front. front ++ s.cache) (e ∙ ap (◌∷◌ a) (sym (b.pop_first s.queue a rest e).1)),
      )

  -- The calls of the two threads, in the order in which they take effect.
  pub data Call : Type 0 where
    pushes : A → Call
    pops : Call
    flushes : Call

  abbrev pub pushed : List Call → List A
  pushed [] = []
  pushed (pushes a ∷ calls) = a ∷ pushed calls
  pushed (pops ∷ calls) = pushed calls
  pushed (flushes ∷ calls) = pushed calls

  abbrev pub found : Option A → List A → List A
  found none popped = popped
  found (some a) popped = a ∷ popped

  -- The elements that were popped, and the queue at the end.
  unfoldable pub run : Spsc A b.Queue → List Call → List A × Spsc A b.Queue
  run s [] = ([], s)
  run s (pushes a ∷ calls) = run (push b s a) calls
  run s (pops ∷ calls) =
      let (first, s') = pop b s in let (popped, end) = run s' calls in (found first popped, end)
  run s (flushes ∷ calls) = run (check_cache b s).1 calls

  -- If the cache is empty or the queue is full, as after `push` and `checkCache`, the capacity is not 0
  -- and some element is waiting, then `pop` finds the oldest one.
  pub pop-IsFlushed :
      (s : Spsc A b.Queue) (a : A) (rest : List A)
      → 0 < b.capacity
      → IsFlushed s
      → waiting s ≡ a ∷ rest
      → (pop b s).0 ≡ some a
  pop-IsFlushed s a rest h flushed w = elim (pop_lem s) [
    | inl (nothing, empty, _) ↦ absurd (starved empty flushed)
    | inr (a', first, order) ↦ first ∙ ap some (head_eq (sym order ∙ w))
  ]
    where
      head_eq : {x y : A} {xs ys : List A} → x ∷ xs ≡ y ∷ ys → x ≡ y
      head_eq e = cc

      starved : b.contents s.queue ≡ [] → IsFlushed s → ⊥
      starved empty (inl clear) =
          let none_waiting : waiting s ≡ [] = ap₂ ◌++◌ empty clear in cc (none_waiting, w)
      starved empty (inr full) = omega (arith, ap length empty)
