-- ===== src/ThreadManager/Turns.antt =====
-- `ThreadManager::update` and `ThreadManager::init` (oryx/threadManager.cpp), with the queues of
-- oryx/thread.h.
pub mod Quiet
pub mod Started
use oryxgame.Common.{ℕ, ◌+◌, Option, none, some, List, [], ◌∷◌}
use oryxgame.Common.Int.{ℤ}
use oryxgame.SpscQueue.{BoundedQueue, Spsc}
use oryxgame.Thread.{Thread, Round, update_main}
use oryxgame.ThreadManager.{EpollThread, ThreadMap, add_thread}

-- What the rounds of several threads leave.
pub record Turn (A Q S : Type 0) : Type 0 where
  pub count : ℕ
  pub threads : List (ℤ × Option (Thread A Q))
  pub state : S

module _ {A S : Type 0} (b : BoundedQueue A)
    (dotask : A → S × Spsc A b.Queue → A × (S × Spsc A b.Queue))
    (dotask_complete : A → S × Spsc A b.Queue → S × Spsc A b.Queue) where
  -- `ThreadManager::update`: the logic thread's side of every thread in turn. `none` is the null pointer.
  unfoldable pub update : List (ℤ × Option (Thread A b.Queue)) → S → Turn A b.Queue S
  update [] s = record { count = 0; threads = []; state = s }
  update ((k, none) ∷ threads) s =
      let rest = update threads s in record rest { threads = (k, none) ∷ rest.threads }
  update ((k, some t) ∷ threads) s =
      let r = update_main b dotask dotask_complete t s in
      let rest = update threads r.state in
      record {
        count = r.count + rest.count;
        threads = (k, some r.thread) ∷ rest.threads;
        state = rest.state;
      }

-- `ThreadManager::init`, given the threads that `run` has started: their numbers are those of
-- `pthread_create`, and what `addThread_Epoll` returns is not looked at.
unfoldable pub init : List EpollThread → ThreadMap → ThreadMap
init [] threads = threads
init (t ∷ started) threads = init started (add_thread (some t) threads).1
