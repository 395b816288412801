-- ===== src/Epoll/Run.antt =====
-- The life of an epoll thread: its constructor, `EpollRun`, and the rounds of `epoll_thread_run`
-- (oryx/EpollHandler.cpp), with the queues of oryx/thread.h.
pub mod Life
pub mod Turns
use oryxgame.Common.{
  ℕ, suc, ◌+◌, Bool, true, false, Option, none, some, List, [], ◌∷◌, leb, ltb, ◌==◌, if◌then◌else◌,
  length, take,
}
use oryxgame.Common.Int.{ℤ, pos, negsuc, ◌+ℤ◌, ltb_ℤ}
use oryxgame.Device.{Device}
use oryxgame.Task.{Task}
use oryxgame.SpscQueue.{BoundedQueue, Spsc, push}
use oryxgame.Thread.{Thread, Round, update_thread}
use oryxgame.Epoll.Write.{Send}
use oryxgame.Epoll.State.{Handler, M, ◌>>=◌, ◌>>◌, give}
use oryxgame.Epoll.Events.{Calls, Event, do_epoll_events, dotask}

abbrev pub max_events : ℕ
max_events = 4096

-- The constructor; the pressure is what the memory held.
unfoldable pub epoll_handler : ℤ → Handler
epoll_handler memory = record {
  thread_id = negsuc 0;
  pressure = memory;
  devices = [];
  next_device = 0;
  map_device_info = [];
  map_device_session_info = [];
  main_queue = [];
  sys_calls = [];
}

-- `CreateEpoll`, given what `epoll_create` returns: its result, and `epfd`.
unfoldable pub create_epoll : ℤ → Bool × ℤ
create_epoll epfd = if ltb_ℤ epfd (pos 0) then (false, negsuc 0) else (true, epfd)

-- What `epoll_wait` returns: -1, or the number of events that it has stored.
pub data Wait : Type 0 where
  wait_failed : Wait
  waited : List (Calls × Event) → Wait

-- `EpollRun` behind its first test; `epoll_wait` is asked for `MAXEVENTS` events in every case.
unfoldable pub wait_and_handle : ℤ → Wait → M ℤ
wait_and_handle max_event wait_failed = give (negsuc 0)
wait_and_handle max_event (waited events) = if length events == 0 then give (pos 0) else (do
  do_epoll_events (take max_events events)
  give (if ltb_ℤ max_event (pos (length events)) then max_event else pos (length events)))

-- `EpollRun`
unfoldable pub epoll_run : ℤ → Wait → M ℤ
epoll_run max_event wait =
    if ltb_ℤ (pos 0) max_event
    then wait_and_handle (if ltb_ℤ (pos max_events) max_event then pos max_events else max_event)
        wait
    else give (negsuc 0)

-- What the system calls of one task return, and the memory that its `new` finds.
pub record Answers : Type 0 where
  pub registered : Bool
  pub raw : Device
  pub sends : List Send

module _ (b : BoundedQueue Task) where
  -- `push_task_main`, for tasks in this order.
  unfoldable pub push_tasks : Spsc Task b.Queue → List Task → Spsc Task b.Queue
  push_tasks q [] = q
  push_tasks q (t ∷ tasks) = push_tasks (push b q t) tasks

-- The handler with nothing left to push.
abbrev pub emptied : Handler → Handler
emptied h = record h { main_queue = [] }

-- The handler and the number of tasks it has run; `none` after an access to a deleted device.
abbrev pub Serving : Type 0
Serving = Option (Handler × ℕ)

module _ (b : BoundedQueue Task) (answers : ℕ → Answers) where
  -- `dotask` on the handler and the queue `m_queue_main`.
  unfoldable pub serve_task :
      Task → Serving × Spsc Task b.Queue → Task × (Serving × Spsc Task b.Queue)
  serve_task t (none, q) = (t, (none, q))
  serve_task t (some (h, n), q) =
      let a = answers n in
      elim (dotask a.registered a.raw a.sends t h) [
        | none ↦ (t, (none, q))
        | some (t', h') ↦ (t', (some (emptied h', suc n), push_tasks b q h'.main_queue))
      ]

  -- `dotask_complete`: `on_main_call` is empty for every task, and `on_free` deletes the task.
  unfoldable pub finish_task : Task → Serving × Spsc Task b.Queue → Serving × Spsc Task b.Queue
  finish_task t s = s

  -- The events of a round, with their tasks pushed.
  unfoldable pub events_round :
      Wait → Handler → Spsc Task b.Queue → Option (ℤ × Handler × Spsc Task b.Queue)
  events_round wait h q = elim (epoll_run (pos max_events) wait h) [
    | none ↦ none
    | some (events, h') ↦ some (events, emptied h', push_tasks b q h'.main_queue)
  ]

  -- One round of `epoll_thread_run`: whether it slept, the queues and the handler.
  unfoldable pub thread_round :
      Wait → Thread Task b.Queue → Handler × ℕ → Bool × Thread Task b.Queue × Serving
  thread_round wait t (h, n) = elim (events_round wait h t.queue_main) [
    | none ↦ (false, t, none)
    | some (events, h', q) ↦
        let r =
          update_thread b serve_task finish_task (record t { queue_main = q }) (some (h', n)) in
        (if ltb_ℤ (pos 0) (events +ℤ pos r.count) then false else true, r.thread, r.state)
  ]

  -- The first rounds of the loop. Before each the logic thread may have changed the queues.
  unfoldable pub thread_rounds :
      List (Wait × (Thread Task b.Queue → Thread Task b.Queue))
      → Thread Task b.Queue
      → Serving
      → Thread Task b.Queue × Serving
  thread_rounds [] t s = (t, s)
  thread_rounds ((wait, logic) ∷ rounds) t none = (t, none)
  thread_rounds ((wait, logic) ∷ rounds) t (some s) =
      let (slept, t', s') = thread_round wait (logic t) s in thread_rounds rounds t' s'
