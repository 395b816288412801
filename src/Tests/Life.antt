-- ===== src/Tests/Life.antt =====
-- Some rounds of an epoll thread (oryx/EpollHandler.cpp), from its start.
use oryxgame.Common.{ℕ, ◌≡◌, refl, min, true, false, some, List, [], ◌∷◌, arith, replicate}
use oryxgame.Common.Int.{pos, negsuc}
use oryxgame.Device.{Device, device_client_external, SockAddr}
use oryxgame.Task.{Task, task_client_conn_insert}
use oryxgame.SpscQueue.{BoundedQueue}
use oryxgame.Thread.{Thread}
use oryxgame.Epoll.Read.{received}
use oryxgame.Epoll.State.{Handler}
use oryxgame.Epoll.Table.{TablesAgree}
use oryxgame.Epoll.Events.{Calls, Event, do_epoll_events}
use oryxgame.Epoll.Run.{
  epoll_handler, Wait, wait_failed, waited, epoll_run, Answers, thread_round, thread_rounds,
}
use oryxgame.Epoll.Run.Life.{IsWell, thread_rounds-IsWell, epoll_handler-IsWell}
use oryxgame.Epoll.Run.Turns.{epoll_run_lem, Turned, thread_round-Turned}
use oryxgame.Tests.Bounded.{Two, one_item, bounded_of, fresh}

abbrev tasks : BoundedQueue Task
tasks = bounded_of Task

abbrev address : SockAddr
address = record { sin_family = 2; sin_addr = 0; sin_port = 0 }

abbrev raw : Device
raw = record {
  fd = pos 0;
  session_id = pos 0;
  device_type = device_client_external;
  recv_buffer = replicate 4096 0;
  recv_begin = 0;
  recv_end = 0;
  send_buffer = replicate 4096 0;
  send_begin = 0;
  send_end = 0;
  sock_addr = address;
}

abbrev answers : ℕ → Answers
answers n = record { registered = true; raw = raw; sends = [] }

abbrev connect : Task
connect = task_client_conn_insert (record {
  thrd_id = pos 0;
  client_fd = pos 7;
  device_type = device_client_external;
  session_id = pos 42;
  sock_addr = address;
})

abbrev thread : Thread Task (Two Task)
thread = record {
  queue_thread = record { cache = []; queue = one_item connect };
  queue_thread_complete = fresh;
  queue_main = fresh;
  queue_main_complete = fresh;
}

-- The peer of the new connection closes it.
abbrev closing : List (Calls × Event)
closing =
    (
      record { accepts = []; recvs = received [] ∷ []; sends = [] },
      record { fd = pos 7; writable = false; readable = true },
    )
    ∷ []

abbrev rounds : List (Wait × (Thread Task (Two Task) → Thread Task (Two Task)))
rounds = (wait_failed, λ t. t) ∷ (waited closing, λ t. t) ∷ []

thread_rounds-IsWell_example :
    (h : Handler) × (n : ℕ) × ((thread_rounds tasks answers rounds thread
        (some (epoll_handler (pos 5), 0))).1
      ≡ some (h, n))
    × IsWell (pos 5) h
thread_rounds-IsWell_example = thread_rounds-IsWell tasks answers (pos 5) rounds thread

thread_round-Turned_example :
    let (slept, t', s') =
      thread_round tasks answers wait_failed thread (epoll_handler (pos 5), 0) in
    Turned tasks answers wait_failed thread (epoll_handler (pos 5)) 0 slept t' s'
thread_round-Turned_example =
    thread_round-Turned tasks answers (pos 5) wait_failed thread (epoll_handler (pos 5)) 0
      (epoll_handler-IsWell tasks answers (pos 5))

start-TablesAgree : TablesAgree (epoll_handler (pos 5))
start-TablesAgree = (epoll_handler-IsWell tasks answers (pos 5)).agree

epoll_run_lem_example :
    (h' : Handler) × (do_epoll_events closing (epoll_handler (pos 5)) ≡ some (tt, h'))
    × (epoll_run (pos 2) (waited closing) (epoll_handler (pos 5)) ≡ some (pos (min 2 1), h'))
    × (epoll_run (pos 2) wait_failed (epoll_handler (pos 5))
        ≡ some (negsuc 0, epoll_handler (pos 5)))
    × (epoll_run (negsuc 2) (waited closing) (epoll_handler (pos 5))
        ≡ some (negsuc 0, epoll_handler (pos 5)))
    × TablesAgree h'
epoll_run_lem_example =
    epoll_run_lem 1 (negsuc 2) closing (epoll_handler (pos 5)) start-TablesAgree (omega arith) refl
