-- ===== src/Tests/Start.antt =====
-- A start of the server and a round of its loop (logic/ServerHandler.cpp).
use oryxgame.Common.{
  ℕ, ◌+◌, ◌≡◌, ◌≢◌, ◌⊎◌, true, false, Option, some, List, [], ◌∷◌, arith, if◌then◌else◌,
}
use oryxgame.Common.Int.{ℤ, pos, negsuc, ltb_ℤ}
use oryxgame.SpscQueue.{Spsc}
use oryxgame.Thread.{Thread}
use oryxgame.ThreadManager.{EpollThread}
use oryxgame.ThreadManager.Turns.Quiet.{AreUntouched}
use oryxgame.TimerControl.{TimeVal, TimerControl, milliseconds, timer_control}
use oryxgame.TimerControl.Updating.{Regular, due}
use oryxgame.Listener.{SocketCalls}
use oryxgame.LogManager.{log_manager}
use oryxgame.Server.{TimerFun, update_1s, update_2s, Server, init, init_managers, run_round}
use oryxgame.Tests.Sessions.{tables}
use oryxgame.ThreadManager.Turns
use oryxgame.Server.Starting.{numbered, listens, timer_of, Started, init-Started}
use oryxgame.Server.Running.{run_round_lem}
use oryxgame.Tests.Bounded.{Two, one_item, bounded_of, fresh}

abbrev calls : SocketCalls
calls = record {
  socket = pos 5;
  bind = λ fd. if ltb_ℤ fd (pos 0) then negsuc 0 else pos 0;
  listen = λ fd. pos 0;
}

refuses : (fd : ℤ) → ltb_ℤ fd (pos 0) ≡ true → ltb_ℤ (calls.bind fd) (pos 0) ≡ true
refuses fd bad = ground (arith, bad)

abbrev epoll_thread : EpollThread
epoll_thread = record { thread_id = pos 11; pressure = pos 0; queue_thread = [] }

abbrev dawn : TimeVal
dawn = record { tv_sec = 1; tv_usec = 0 }

-- Actions are numbers.
abbrev server : Server ℕ
server = record {
  log = log_manager;
  threads = [];
  manager = tables (pos 0);
  actions = [];
  timers = timer_control dawn;
}

init-Started_example :
    ((listens calls ≡ false)
      × (init (epoll_thread ∷ []) calls 1 server
          ≡ some (false, init_managers (epoll_thread ∷ []) 1 server))
      × ((init_managers (epoll_thread ∷ []) 1 server).threads ≡ Turns.init (epoll_thread ∷ []) [])
      × ((init_managers (epoll_thread ∷ []) 1 server).timers ≡ server.timers)
      × ((init_managers (epoll_thread ∷ []) 1 server).manager ≡ numbered server.manager))
    ⊎ ((s' : Server ℕ) × (init (epoll_thread ∷ []) calls 1 server ≡ some (true, s'))
        × Started (epoll_thread ∷ []) calls 1 server s')
init-Started_example = init-Started epoll_thread [] calls 1 server refuses tt

abbrev thread : Thread ℕ (Two ℕ)
thread = record {
  queue_thread = fresh;
  queue_thread_complete = fresh;
  queue_main = record { cache = []; queue = one_item 4 };
  queue_main_complete = fresh;
}

abbrev timers : TimerControl TimerFun
timers = record {
  m_last_run_time = dawn;
  m_now_time = dawn;
  m_vec_timer_fun = timer_of update_1s ∷ timer_of update_2s ∷ [];
}

timers-Regular : Regular (milliseconds dawn) timers.m_vec_timer_fun
timers-Regular = (omega arith, omega arith, (omega arith, omega arith, tt))

-- The task is a number, and the state adds up the numbers.
abbrev add_up : ℕ → ℕ × Spsc ℕ (Two ℕ) → ℕ × (ℕ × Spsc ℕ (Two ℕ))
add_up a s = (a, (s.0 + a, s.1))

abbrev forget : ℕ → ℕ × Spsc ℕ (Two ℕ) → ℕ × Spsc ℕ (Two ℕ)
forget a s = s

abbrev threads : List (ℤ × Option (Thread ℕ (Two ℕ)))
threads = (pos 11, some thread) ∷ []

run_round_lem_example :
    let r = run_round (bounded_of ℕ) add_up forget dawn timers threads 0 in
    (r.calls ≡ due (milliseconds dawn) timers.m_vec_timer_fun)
    × (((r.slept ≡ true)
          × (due (milliseconds dawn) timers.m_vec_timer_fun ≡ [])
          × (r.turn.count ≡ 0)
          × AreUntouched (bounded_of ℕ) add_up forget threads r.turn.threads
          × (r.turn.state ≡ 0))
        ⊎ ((r.slept ≡ false)
            × ((r.turn.count ≢ 0) ⊎ (due (milliseconds dawn) timers.m_vec_timer_fun ≢ []))))
run_round_lem_example =
    run_round_lem (bounded_of ℕ) add_up forget dawn timers threads 0 timers-Regular
