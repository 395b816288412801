-- ===== src/SpscQueue/Overlap/Ending.antt =====
-- The calls of the producer come to an end (oryx/spsc_queue.h), and `push` of one thread alone.
use oryxgame.Common.{
  ℕ, suc, ◌+◌, ◌*◌, ◌≤◌, ◌<◌, ◌≡◌, ◌⊎◌, inl, inr, true, List, [], ◌∷◌, ◌++◌, arith, ltb, length,
  length-append,
}
use oryxgame.SpscQueue.{BoundedQueue, Spsc, move_cache, check_cache, store, push}
use oryxgame.SpscQueue.Fifo.{push_cases}
use oryxgame.SpscQueue.Overlap.{
  Producer, idle, testing, trying, checking, erasing, Shared, taken, shared_of, Work, behind_others,
  none_waits, stored, refused, emptied, moved, full, erased, calls_push, calls_check, works, Reach,
  here, next,
}

-- A bound on the steps that the producer has still to do.
abbrev pub steps_left : {A : Type 0} → Producer A → List A → ℕ
steps_left idle cache = 0
steps_left (testing a) cache = 5 + 2 * length cache
steps_left (trying a) cache = 4 + 2 * length cache
steps_left checking cache = 1 + 2 * length cache
steps_left erasing cache = 2 * length cache

module _ {A : Type 0} (b : BoundedQueue A) where
  abbrev pub left : Shared A b.Queue → ℕ
  left s = steps_left s.producer s.spsc.cache

  -- The producer does `n` steps of the call that it is in, with any pops between them.
  pub data During (s : Shared A b.Queue) : ℕ → Shared A b.Queue → Type 0 where
    begun : During s 0 s
    worked : {n : ℕ} {t u : Shared A b.Queue} → During s n t → Work b t u → During s (suc n) u
    popped_between :
        {n : ℕ} (q : b.Queue) (cache : List A) (p : Producer A) (xs ys : List A)
        → During s n (shared_of q cache p xs ys)
        → During s n (shared_of (b.pop q).1 cache p xs (taken ys (b.pop q).0))

  Work-left : {s t : Shared A b.Queue} → Work b s t → left t < left s
  Work-left (behind_others q c a cache xs ys) = omega (arith, length-append cache (a ∷ []))
  Work-left (none_waits q a xs ys) = omega arith
  Work-left (stored q a xs ys e) = omega arith
  Work-left (refused q a xs ys e) = omega arith
  Work-left (emptied q xs ys) = omega arith
  Work-left (moved q c cache xs ys e) = omega arith
  Work-left (full q c cache xs ys e) = omega arith
  Work-left (erased q c cache xs ys) = omega arith

  -- However the pops of the consumer come between, a call of `push` ends after at most five steps and two
  -- more for each element in the cache, and one of `checkCache` after one and two for each.
  pub During-left :
      {s : Shared A b.Queue} {n : ℕ} {t : Shared A b.Queue} → During s n t → n + left t ≤ left s
  During-left begun = omega arith
  During-left (worked d w) = omega (arith, During-left d, Work-left w)
  During-left (popped_between q cache p xs ys d) = During-left d

  -- The cache fits the place where the producer stands.
  abbrev pub Placed : Producer A → List A → Type 0
  Placed idle cache = Unit {0}
  Placed (testing a) cache = Unit {0}
  Placed (trying a) cache = cache ≡ []
  Placed checking cache = Unit {0}
  Placed erasing cache = 0 < length cache

  abbrev pub IsPlaced : Shared A b.Queue → Type 0
  IsPlaced s = Placed s.producer s.spsc.cache

  abbrev Goes : Shared A b.Queue → Type 0
  Goes s = (s.producer ≡ idle) ⊎ ((t : Shared A b.Queue) × Work b s t)

  joined : {s t u : Shared A b.Queue} → Reach b s t → Reach b t u → Reach b s u
  joined r here = r
  joined r (next r' step) = next (joined r r') step

  abbrev alone : Spsc A b.Queue → List A → List A → Shared A b.Queue
  alone s xs ys = shared_of s.queue s.cache idle xs ys

  checks :
      (q : b.Queue) (cache xs ys : List A)
      → Reach b (shared_of q cache checking xs ys) (alone (move_cache b q cache).1 xs ys)
  unfolding move_cache
  checks q [] xs ys = next here (works (emptied q xs ys))
  checks q (c ∷ cache) xs ys = elim (push_cases b q c) [
    | inl (accepted, _) ↦ rw accepted (
        joined
          (next (next here (works (moved q c cache xs ys accepted)))
            (works (erased (b.push q c).1 c cache xs ys)))
          (checks (b.push q c).1 cache xs ys))
    | inr (rejected, _, _) ↦ rw rejected (next here (works (full q c cache xs ys rejected)))
  ]

  stores :
      (q : b.Queue) (cache xs ys : List A) (a : A)
      → let s = store b q cache a in
        Reach b (shared_of q cache (testing a) xs ys) (shared_of s.queue s.cache checking xs ys)
  unfolding store
  stores q (c ∷ cache) xs ys a =
      let busy : ltb 0 (length (c ∷ cache)) ≡ true = ground arith in
      rw busy (next here (works (behind_others q c a cache xs ys)))
  stores q [] xs ys a = elim (push_cases b q a) [
    | inl (accepted, _) ↦
        rw accepted
          (next (next here (works (none_waits q a xs ys))) (works (stored q a xs ys accepted)))
    | inr (rejected, _, _) ↦
        rw rejected
          (next (next here (works (none_waits q a xs ys))) (works (refused q a xs ys rejected)))
  ]

  -- When the consumer does not come between, the steps of `push` lead to what the function `push` says,
  -- and those of `checkCache` to what `check_cache` says.
  pub push-Reach :
      (s : Spsc A b.Queue) (a : A) (xs ys : List A)
      → Reach b
          (shared_of s.queue s.cache idle xs ys)
          (shared_of (push b s a).queue (push b s a).cache idle (xs ++ (a ∷ [])) ys)
        × Reach b
            (shared_of s.queue s.cache idle xs ys)
            (shared_of (check_cache b s).1.queue (check_cache b s).1.cache idle xs ys)
  unfolding push check_cache
  push-Reach s a xs ys =
      let stored_in = store b s.queue s.cache a in
      (
        joined (next here (calls_push s a xs ys)) (
            joined (stores s.queue s.cache (xs ++ (a ∷ [])) ys a)
              (checks stored_in.queue stored_in.cache (xs ++ (a ∷ [])) ys)),
        joined (next here (calls_check s xs ys)) (checks s.queue s.cache xs ys),
      )
