-- ===== src/SpscQueue/Overlap.antt =====
-- `push` and `checkCache` of oryx/spsc_queue.h step by step: the consumer may pop between any two steps of
-- the producer. Each call of the lock-free queue is one step, as its documentation promises.
pub mod Order
pub mod Ending
use oryxgame.Common.{Bool, true, false, Option, none, some, List, [], ◌∷◌, ◌++◌, ◌≡◌}
use oryxgame.SpscQueue.{BoundedQueue, Spsc}

-- Where the producer stands: outside of both functions; at the first test of `push`; before
-- `m_queue.push(data)`; at the test of the loop of `checkCache`; or before `m_cache.erase`.
pub data Producer (A : Type 0) : Type 0 where
  idle : Producer A
  testing : A → Producer A
  trying : A → Producer A
  checking : Producer A
  erasing : Producer A

-- The queue in the midst of the calls, and what was pushed and popped so far.
pub record Shared (A Q : Type 0) : Type 0 where
  pub spsc : Spsc A Q
  pub producer : Producer A
  pub pushed : List A
  pub popped : List A

-- What `pop` returned is added at the end.
abbrev pub taken {ℓ} : {A : Type ℓ} → List A → Option A → List A
taken popped none = popped
taken popped (some a) = popped ++ (a ∷ [])

abbrev pub shared_of : {A Q : Type 0} → Q → List A → Producer A → List A → List A → Shared A Q
shared_of q cache producer pushed popped = record {
  spsc = record { cache = cache; queue = q };
  producer = producer;
  pushed = pushed;
  popped = popped;
}

module _ {A : Type 0} (b : BoundedQueue A) where
  -- A step of the producer within a call: `Work s t` is the only step there is from `s` to go on.
  pub data Work : Shared A b.Queue → Shared A b.Queue → Type 0 where
    behind_others :
        (q : b.Queue) (c a : A) (cache xs ys : List A)
        → Work
            (shared_of q (c ∷ cache) (testing a) xs ys)
            (shared_of q ((c ∷ cache) ++ (a ∷ [])) checking xs ys)
    none_waits :
        (q : b.Queue) (a : A) (xs ys : List A)
        → Work (shared_of q [] (testing a) xs ys) (shared_of q [] (trying a) xs ys)
    stored :
        (q : b.Queue) (a : A) (xs ys : List A)
        → (b.push q a).0 ≡ true
        → Work (shared_of q [] (trying a) xs ys) (shared_of (b.push q a).1 [] checking xs ys)
    refused :
        (q : b.Queue) (a : A) (xs ys : List A)
        → (b.push q a).0 ≡ false
        → Work (shared_of q [] (trying a) xs ys) (shared_of (b.push q a).1 (a ∷ []) checking xs ys)
    emptied :
        (q : b.Queue) (xs ys : List A)
        → Work (shared_of q [] checking xs ys) (shared_of q [] idle xs ys)
    moved :
        (q : b.Queue) (c : A) (cache xs ys : List A)
        → (b.push q c).0 ≡ true
        → Work
            (shared_of q (c ∷ cache) checking xs ys)
            (shared_of (b.push q c).1 (c ∷ cache) erasing xs ys)
    full :
        (q : b.Queue) (c : A) (cache xs ys : List A)
        → (b.push q c).0 ≡ false
        → Work
            (shared_of q (c ∷ cache) checking xs ys)
            (shared_of (b.push q c).1 (c ∷ cache) idle xs ys)
    erased :
        (q : b.Queue) (c : A) (cache xs ys : List A)
        → Work (shared_of q (c ∷ cache) erasing xs ys) (shared_of q cache checking xs ys)

  -- The calls, and the consumer's `pop`, which comes at any time.
  pub data Step : Shared A b.Queue → Shared A b.Queue → Type 0 where
    calls_push :
        (s : Spsc A b.Queue) (a : A) (xs ys : List A)
        → Step
            (shared_of s.queue s.cache idle xs ys)
            (shared_of s.queue s.cache (testing a) (xs ++ (a ∷ [])) ys)
    calls_check :
        (s : Spsc A b.Queue) (xs ys : List A)
        → Step (shared_of s.queue s.cache idle xs ys) (shared_of s.queue s.cache checking xs ys)
    works : {s t : Shared A b.Queue} → Work s t → Step s t
    pops :
        (q : b.Queue) (cache : List A) (p : Producer A) (xs ys : List A)
        → Step (shared_of q cache p xs ys) (shared_of (b.pop q).1 cache p xs (taken ys (b.pop q).0))

  -- Any number of steps.
  pub data Reach (s : Shared A b.Queue) : Shared A b.Queue → Type 0 where
    here : Reach s s
    next : {t u : Shared A b.Queue} → Reach s t → Step t u → Reach s u
