-- ===== src/SpscQueue/Overlap/Order.antt =====
-- The order of the elements while calls of the two threads overlap (oryx/spsc_queue.h).
use oryxgame.Common.{
  ◌≡◌, sym, ap, ◌∙◌, inl, inr, true, false, List, [], ◌∷◌, ◌++◌, append-nil, append_assoc, arith,
}
use oryxgame.SpscQueue.{BoundedQueue, pop}
use oryxgame.SpscQueue.Fifo.{push_cases, pop_lem}
use oryxgame.SpscQueue.Overlap.{
  Producer, idle, testing, trying, checking, erasing, Shared, taken, shared_of, Work, behind_others,
  none_waits, stored, refused, emptied, moved, full, erased, Step, calls_push, calls_check, works,
  pops, Reach, here, next,
}

module _ {A : Type 0} (b : BoundedQueue A) where
  -- What was pushed and is not in the lock-free queue, oldest first; while the first of the cache is
  -- erased it is there already.
  abbrev pub held : Producer A → List A → List A
  held idle cache = cache
  held (testing a) cache = cache ++ (a ∷ [])
  held (trying a) cache = cache ++ (a ∷ [])
  held checking cache = cache
  held erasing [] = []
  held erasing (c ∷ cache) = cache

  -- What was popped, and then what still waits, is what was pushed.
  abbrev pub InOrder : Shared A b.Queue → Type 0
  InOrder s = s.popped ++ (b.contents s.spsc.queue ++ held s.producer s.spsc.cache) ≡ s.pushed

  put :
      (q : b.Queue) (a : A) (rest ys : List A)
      → (b.push q a).0 ≡ true
      → ys ++ (b.contents (b.push q a).1 ++ rest) ≡ ys ++ (b.contents q ++ (a ∷ rest))
  put q a rest ys accepted = elim (push_cases b q a) [
    | inl (_, grown) ↦
        ap (λ w. ys ++ w) (ap (λ w. w ++ rest) grown ∙ append_assoc (b.contents q) (a ∷ []) rest)
    | inr (rejected, _, _) ↦ absurd (ground (arith, rejected, accepted))
  ]

  unchanged :
      (q : b.Queue) (a : A) (rest ys : List A)
      → (b.push q a).0 ≡ false
      → ys ++ (b.contents (b.push q a).1 ++ rest) ≡ ys ++ (b.contents q ++ rest)
  unchanged q a rest ys rejected = elim (push_cases b q a) [
    | inl (accepted, _) ↦ absurd (ground (arith, rejected, accepted))
    | inr (_, same, _) ↦ ap (λ w. ys ++ (w ++ rest)) same
  ]

  Work-InOrder : {s t : Shared A b.Queue} → Work b s t → InOrder s → InOrder t
  Work-InOrder (behind_others q c a cache xs ys) e = e
  Work-InOrder (none_waits q a xs ys) e = e
  Work-InOrder (stored q a xs ys accepted) e = put q a [] ys accepted ∙ e
  Work-InOrder (refused q a xs ys rejected) e = unchanged q a (a ∷ []) ys rejected ∙ e
  Work-InOrder (emptied q xs ys) e = e
  Work-InOrder (moved q c cache xs ys accepted) e = put q c cache ys accepted ∙ e
  Work-InOrder (full q c cache xs ys rejected) e = unchanged q c (c ∷ cache) ys rejected ∙ e
  Work-InOrder (erased q c cache xs ys) e = e

  popped_once :
      (q : b.Queue) (ys rest : List A)
      → taken ys (b.pop q).0 ++ (b.contents (b.pop q).1 ++ rest) ≡ ys ++ (b.contents q ++ rest)
  unfolding pop
  popped_once q ys rest = elim (pop_lem b (record { cache = rest; queue = q })) [
    | inl (nothing, _, same) ↦ rw nothing (ap (λ w. ys ++ w) same)
    | inr (a, first, order) ↦
        rw first (
          append_assoc ys (a ∷ []) (b.contents (b.pop q).1 ++ rest) ∙ ap (λ w. ys ++ w) (sym order))
  ]

  Step-InOrder : {s t : Shared A b.Queue} → Step b s t → InOrder s → InOrder t
  Step-InOrder (calls_push s a xs ys) e =
      ap (λ w. ys ++ w) (sym (append_assoc (b.contents s.queue) s.cache (a ∷ [])))
      ∙ sym (append_assoc ys (b.contents s.queue ++ s.cache) (a ∷ []))
      ∙ ap (λ w. w ++ (a ∷ [])) e
  Step-InOrder (calls_check s xs ys) e = e
  Step-InOrder (works w) e = Work-InOrder w e
  Step-InOrder (pops q cache p xs ys) e = popped_once q ys (held p cache) ∙ e

  -- From a queue outside of any call, with nothing waiting, through any interleaving of the steps of
  -- `push` and `checkCache` with pops between them: what was popped, then what the lock-free queue holds,
  -- then what is still on its way through the cache, is exactly what was pushed, in its order.
  pub Reach-InOrder :
      (q : b.Queue) (s : Shared A b.Queue)
      → b.contents q ≡ []
      → Reach b (shared_of q [] idle [] []) s
      → s.popped ++ (b.contents s.spsc.queue ++ held s.producer s.spsc.cache) ≡ s.pushed
  Reach-InOrder q s empty run = kept run (append-nil (b.contents q) ∙ empty)
    where
      kept : {s t : Shared A b.Queue} → Reach b s t → InOrder s → InOrder t
      kept here e = e
      kept (next r step) e = Step-InOrder step (kept r e)
