-- ===== src/ThreadManager.antt =====
-- oryx/threadManager.h and oryx/threadManager.cpp: which epoll thread gets a task.
pub mod Choice
pub mod Turns
pub mod Unordered
use oryxgame.Common.{ℕ, Bool, true, false, Option, none, some, List, [], ◌∷◌, ◌++◌, if◌then◌else◌}
use oryxgame.Common.Int.{ℤ, pos, negsuc, ltb_ℤ, eqb_ℤ}
use oryxgame.Common.Map.{Map, find, insert}
use oryxgame.Task.{Task, get_thread_id}

-- What the thread manager uses of a `Thread`: its number, its pressure, and the tasks that were pushed
-- with `push_task_thread`, oldest first.
pub record EpollThread : Type 0 where
  pub thread_id : ℤ
  pub pressure : ℤ
  pub queue_thread : List Task

-- `THREAD_MAP`; the order of the entries is that of the iteration.
abbrev pub ThreadMap : Type 0
ThreadMap = Map EpollThread

-- The loop, with `nowThread`, over threads that are not null.
unfoldable pub less_pressure : Option EpollThread → ThreadMap → Option EpollThread
less_pressure now [] = now
less_pressure none ((k, t) ∷ threads) = less_pressure (some t) threads
less_pressure (some now) ((k, t) ∷ threads) =
    less_pressure (if ltb_ℤ t.pressure now.pressure then some t else some now) threads

unfoldable pub get_less_pressure_thread : ℤ → ThreadMap → Option EpollThread
get_less_pressure_thread thread_id threads =
    if eqb_ℤ thread_id (pos 0) then less_pressure none threads else find thread_id threads

-- `none` is the null pointer.
unfoldable pub add_thread : Option EpollThread → ThreadMap → Bool × ThreadMap
add_thread none threads = (false, threads)
add_thread (some t) threads = elim (find t.thread_id threads) [
  | some _ ↦ (false, threads)
  | none ↦ (true, insert t.thread_id t threads)
]

-- `push_task_thread`
unfoldable pub push_task_thread : Task → EpollThread → EpollThread
push_task_thread task t = record t { queue_thread = t.queue_thread ++ (task ∷ []) }

-- `push_task`; the thread that was chosen is changed where the map holds it.
unfoldable pub push_task : Task → ThreadMap → ℤ × ThreadMap
push_task task threads = elim (get_less_pressure_thread (get_thread_id task) threads) [
  | none ↦ (negsuc 0, threads)
  | some t ↦ (t.thread_id, insert t.thread_id (push_task_thread task t) threads)
]
