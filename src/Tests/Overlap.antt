-- ===== src/Tests/Overlap.antt =====
-- A push that a pop overtakes (oryx/spsc_queue.h), over a queue with two places.
use oryxgame.Common.{ℕ, ◌+◌, ◌≤◌, ◌≡◌, refl, [], ◌∷◌, ◌++◌}
use oryxgame.SpscQueue.{BoundedQueue, Spsc}
use oryxgame.SpscQueue.Overlap.{
  idle, checking, erasing, Shared, shared_of, none_waits, stored, emptied, moved, erased,
  calls_push, works, pops, Reach, here, next,
}
use oryxgame.SpscQueue.Overlap.Order.{held, Reach-InOrder}
use oryxgame.SpscQueue.Overlap.Ending.{left, During, begun, worked, popped_between, During-left}
use oryxgame.Tests.Bounded.{Two, no_item, one_item, two_items, bounded_of}

abbrev bounded : BoundedQueue ℕ
bounded = bounded_of ℕ

abbrev start : Shared ℕ (Two ℕ)
start = shared_of no_item [] idle [] []

-- 7 is in the lock-free queue and was popped, while the producer is still in `push`.
abbrev overtaken : Shared ℕ (Two ℕ)
overtaken = shared_of no_item [] checking (7 ∷ []) (7 ∷ [])

overtaken-Reach : Reach bounded start overtaken
overtaken-Reach =
    next
      (next
        (next (next here (calls_push (record { cache = []; queue = no_item }) 7 [] []))
          (works (none_waits no_item 7 (7 ∷ []) [])))
        (works (stored no_item 7 (7 ∷ []) [] refl)))
      (pops (one_item 7) [] checking (7 ∷ []) [])

Reach-InOrder_example :
    overtaken.popped
      ++ (bounded.contents overtaken.spsc.queue
          ++ held bounded overtaken.producer overtaken.spsc.cache)
    ≡ overtaken.pushed
Reach-InOrder_example = Reach-InOrder bounded no_item overtaken refl overtaken-Reach

-- The lock-free queue has a place again, and 3 moves out of the cache; a pop comes between.
abbrev busy : Shared ℕ (Two ℕ)
busy = shared_of (one_item 2) (3 ∷ []) checking [] []

abbrev calm : Shared ℕ (Two ℕ)
calm = shared_of (one_item 3) [] idle [] (2 ∷ [])

busy-During : During bounded busy 3 calm
busy-During =
    worked
      (worked
        (popped_between (two_items 2 3) (3 ∷ []) erasing [] []
          (worked begun (moved (one_item 2) 3 [] [] [] refl)))
        (erased (one_item 3) 3 [] [] (2 ∷ [])))
      (emptied (one_item 3) [] (2 ∷ []))

During-left_example : 3 + left bounded calm ≤ left bounded busy
During-left_example = During-left bounded busy-During

abbrev full : Spsc ℕ (Two ℕ)
full = record { cache = 3 ∷ []; queue = two_items 1 2 }
