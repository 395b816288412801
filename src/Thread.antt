-- ===== src/Thread.antt =====
-- oryx/thread.h and oryx/thread.cpp: the four task queues of an epoll thread, and what the two threads do
-- with them in each round.
pub mod Creation
pub mod Handling
pub mod Rounds
use oryxgame.Common.{ℕ, zero, suc, ◌+◌, Option, none, some, List, length}
use oryxgame.SpscQueue.{BoundedQueue, Spsc, check_cache, push, pop}

abbrev pub max_handler_size_per_frame : ℕ
max_handler_size_per_frame = 1024

-- The queues of `class Thread`; `A` is the task node.
pub record Thread (A Q : Type 0) : Type 0 where
  pub queue_thread : Spsc A Q
  pub queue_thread_complete : Spsc A Q
  pub queue_main : Spsc A Q
  pub queue_main_complete : Spsc A Q

-- What a loop did: how many tasks it took, and what it left.
pub record Handled (A Q S : Type 0) : Type 0 where
  pub count : ℕ
  pub taken : Spsc A Q
  pub given : Spsc A Q
  pub state : S

pub record Completed (A Q S : Type 0) : Type 0 where
  pub count : ℕ
  pub taken : Spsc A Q
  pub state : S

-- What one round of a thread leaves.
pub record Round (A Q S : Type 0) : Type 0 where
  pub count : ℕ
  pub thread : Thread A Q
  pub state : S

-- `dotask` and `dotask_complete` are virtual: they change the state of the thread that runs them, and
-- `dotask` may change the task.
module _ {A S : Type 0} (b : BoundedQueue A) (dotask : A → S → A × S) where
  -- The loop of `handlerTask_main` and `handlerTask_thread`, with what is left of the limit.
  unfoldable pub handle : ℕ → Spsc A b.Queue → Spsc A b.Queue → S → Handled A b.Queue S
  handle zero i o s = record { count = 0; taken = i; given = o; state = s }
  handle (suc n) i o s = elim (pop b i).0 [
    | none ↦ record { count = 0; taken = (pop b i).1; given = o; state = s }
    | some a ↦
        let rest = handle n (pop b i).1 (push b o (dotask a s).0) (dotask a s).1 in
        record rest { count = suc rest.count }
  ]

module _ {A S : Type 0} (b : BoundedQueue A) (dotask_complete : A → S → S) where
  -- The loop of `handlerTask_main_complete` and `handlerTask_thread_complete`.
  unfoldable pub complete : ℕ → Spsc A b.Queue → S → Completed A b.Queue S
  complete zero i s = record { count = 0; taken = i; state = s }
  complete (suc fuel) i s = elim (pop b i).0 [
    | none ↦ record { count = 0; taken = (pop b i).1; state = s }
    | some a ↦
        let rest = complete fuel (pop b i).1 (dotask_complete a s) in
        record rest { count = suc rest.count }
  ]

-- While the tasks run they may push others to this thread's other side: so the state that they change
-- includes that queue, `queue_thread` for the logic thread and `queue_main` for the epoll thread.
module _ {A S : Type 0} (b : BoundedQueue A)
    (dotask : A → S × Spsc A b.Queue → A × (S × Spsc A b.Queue))
    (dotask_complete : A → S × Spsc A b.Queue → S × Spsc A b.Queue) where
  unfoldable pub handler_task_main : Thread A b.Queue → S → Round A b.Queue S
  handler_task_main t s =
      let r =
        handle b dotask max_handler_size_per_frame t.queue_main t.queue_thread_complete
          (s, t.queue_thread) in
      record {
        count = r.count;
        thread = record t {
          queue_main = r.taken;
          queue_thread_complete = r.given;
          queue_thread = r.state.1;
        };
        state = r.state.0;
      }

  unfoldable pub handler_task_thread : Thread A b.Queue → S → Round A b.Queue S
  handler_task_thread t s =
      let r =
        handle b dotask max_handler_size_per_frame t.queue_thread t.queue_main_complete
          (s, t.queue_main) in
      record {
        count = r.count;
        thread = record t {
          queue_thread = r.taken;
          queue_main_complete = r.given;
          queue_main = r.state.1;
        };
        state = r.state.0;
      }

  unfoldable pub handler_task_main_complete : Thread A b.Queue → S → Round A b.Queue S
  handler_task_main_complete t s =
      let r =
        complete b dotask_complete (suc (length (b.contents t.queue_main_complete.queue)))
          t.queue_main_complete (s, t.queue_thread) in
      record {
        count = r.count;
        thread = record t { queue_main_complete = r.taken; queue_thread = r.state.1 };
        state = r.state.0;
      }

  unfoldable pub handler_task_thread_complete : Thread A b.Queue → S → Round A b.Queue S
  handler_task_thread_complete t s =
      let r =
        complete b dotask_complete (suc (length (b.contents t.queue_thread_complete.queue)))
          t.queue_thread_complete (s, t.queue_main) in
      record {
        count = r.count;
        thread = record t { queue_thread_complete = r.taken; queue_main = r.state.1 };
        state = r.state.0;
      }

  -- The round of the logic thread.
  unfoldable pub update_main : Thread A b.Queue → S → Round A b.Queue S
  update_main t s =
      let r = handler_task_main_complete t s in
      let r' = handler_task_main r.thread r.state in
      record {
        count = r.count + r'.count;
        thread = record r'.thread {
          queue_thread_complete = (check_cache b r'.thread.queue_thread_complete).1;
          queue_thread = (check_cache b r'.thread.queue_thread).1;
        };
        state = r'.state;
      }

  -- The round of the epoll thread.
  unfoldable pub update_thread : Thread A b.Queue → S → Round A b.Queue S
  update_thread t s =
      let r = handler_task_thread_complete t s in
      let r' = handler_task_thread r.thread r.state in
      record {
        count = r.count + r'.count;
        thread = record r'.thread {
          queue_main_complete = (check_cache b r'.thread.queue_main_complete).1;
          queue_main = (check_cache b r'.thread.queue_main).1;
        };
        state = r'.state;
      }
