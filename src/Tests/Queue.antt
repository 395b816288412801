-- ===== src/Tests/Queue.antt =====
-- The queue of oryx/spsc_queue.h over a bounded queue with two places.
use oryxgame.Common.{ℕ, ◌+◌, ◌≡◌, refl, List, [], ◌∷◌, ◌++◌}
use oryxgame.SpscQueue.{BoundedQueue, Spsc, store, move_cache, push, pop, check_cache}
use oryxgame.Tests.Bounded.{Two, one_item, two_items, bounded_of, fresh}
use oryxgame.Thread.{Thread, update_main}
use oryxgame.Thread.Rounds.{Rounded, update_main-Rounded}
use oryxgame.SpscQueue.Fifo.{Call, pushes, pops, flushes, run}

abbrev bounded : BoundedQueue ℕ
bounded = bounded_of ℕ

abbrev fresh_queue : Spsc ℕ (Two ℕ)
fresh_queue = fresh

-- A full queue with one element in the cache.
abbrev full : Spsc ℕ (Two ℕ)
full = record { cache = 3 ∷ []; queue = two_items 1 2 }

abbrev calls : List (Call bounded)
calls = pushes 1 ∷ pushes 2 ∷ pushes 3 ∷ pops ∷ pushes 4 ∷ pops ∷ flushes ∷ pops ∷ []

popped : (run bounded fresh_queue calls).0 ≡ 1 ∷ 2 ∷ 3 ∷ []
unfolding run push store check_cache move_cache pop
popped = refl

-- Tasks are numbers; running one adds 100 to it and pushes its double as a new task of the thread that
-- runs it. The log records what was run and completed.
abbrev run_number : ℕ → List ℕ × Spsc ℕ (Two ℕ) → ℕ × (List ℕ × Spsc ℕ (Two ℕ))
run_number a s = (a + 100, (s.0 ++ (a ∷ []), push bounded s.1 (a + a)))

abbrev complete_number : ℕ → List ℕ × Spsc ℕ (Two ℕ) → List ℕ × Spsc ℕ (Two ℕ)
complete_number a s = (s.0 ++ (a ∷ []), s.1)

abbrev thread : Thread ℕ (Two ℕ)
thread = record {
  queue_thread = fresh_queue;
  queue_thread_complete = fresh_queue;
  queue_main = full;
  queue_main_complete = record { cache = []; queue = one_item 101 };
}

update_main-Rounded_example :
    Rounded bounded run_number complete_number thread.queue_main_complete
      (update_main bounded run_number complete_number thread []).thread.queue_main_complete
      full
      (update_main bounded run_number complete_number thread []).thread.queue_main
      thread.queue_thread_complete
      (update_main bounded run_number complete_number thread []).thread.queue_thread_complete
      thread.queue_thread
      (update_main bounded run_number complete_number thread []).thread.queue_thread
      []
      (update_main bounded run_number complete_number thread []).state
      (update_main bounded run_number complete_number thread []).count
update_main-Rounded_example = update_main-Rounded bounded run_number complete_number thread []
