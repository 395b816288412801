-- ===== src/Server/Starting.antt =====
-- What `ServerHandler::init` leaves (logic/ServerHandler.cpp).
use oryxgame.Common.{
  ◌≡◌, refl, ◌⊎◌, inl, inr, Bool, true, false, some, List, [], ◌∷◌, ◌++◌, append_assoc, arith,
  if◌then◌else◌, Bool-cases,
}
use oryxgame.Common.Int.{ℤ, pos, ltb_ℤ, eqb_ℤ}
use oryxgame.Common.Map.{find}
use oryxgame.Device.{device_server_external}
use oryxgame.Task.{Task, Listening, task_listener, new_listener, get_thread_id}
use oryxgame.ThreadManager.{EpollThread, ThreadMap, push_task}
use oryxgame.ThreadManager.Choice.{IsValid, IsLeast, push_task-IsLeast}
use oryxgame.ThreadManager.Turns.Started.{init-IsValid}
use oryxgame.ThreadManager.Turns
use oryxgame.ClientConnManager.{Manager}
use oryxgame.ClientConnManager.Ops
use oryxgame.PlayerManager
use oryxgame.TimerControl.{TimerFunInfo, register_timer_fun}
use oryxgame.Listener.{SocketCalls, af_inet, listener_at, do_listen, create_task}
use oryxgame.Listener.Opening.{do_listen-create_task}
use oryxgame.MessageHandler.{msgid_heart_beat}
use oryxgame.MessageHandler.Answering.{found_heart_beat}
use oryxgame.Server.{
  TimerFun, update_1s, update_2s, Server, server_port, init_managers, open_server, init,
}

-- The task that tells an epoll thread to listen.
abbrev pub listen_task : SocketCalls → Task
listen_task calls = task_listener (
    new_listener calls.socket device_server_external
      (record { sin_family = af_inet; sin_addr = 0; sin_port = server_port }))

abbrev pub timer_of : TimerFun → TimerFunInfo TimerFun
timer_of update_1s = record { timeval_fun = some update_1s; interval = 1000; last_run_time = 0 }
timer_of update_2s = record { timeval_fun = some update_2s; interval = 2000; last_run_time = 0 }

abbrev pub listens : SocketCalls → Bool
listens calls = (do_listen calls (listener_at 0 server_port device_server_external)).0

-- The managers of sessions and players as they are at the start: the tables stay, the numbers of new players
-- begin at 1001 and those of sessions at 1.
abbrev pub numbered : Manager → Manager
numbered m = record m { auto_incr_player_id = pos 1001; auto_incri_session_id = 1 }

module _ {Act : Type 0} where
  -- What a start that succeeds leaves.
  pub record Started (started : List EpollThread) (calls : SocketCalls) (act : Act)
      (s s' : Server Act) : Type 0 where
    pub thread : EpollThread
    pub chosen : find thread.thread_id (Turns.init started s.threads) ≡ some thread
    pub least : IsLeast thread.pressure (Turns.init started s.threads)
    pub told :
        (k : ℤ)
        → find k s'.threads ≡ (
            if eqb_ℤ thread.thread_id k
            then some
                (record thread { queue_thread = thread.queue_thread ++ (listen_task calls ∷ []) })
            else find k (Turns.init started s.threads))
    pub timers :
        s'.timers.m_vec_timer_fun
        ≡ s.timers.m_vec_timer_fun ++ (timer_of update_1s ∷ timer_of update_2s ∷ [])
    pub action : find msgid_heart_beat s'.actions ≡ some (some act)
    pub manager : s'.manager ≡ numbered s.manager

  -- The state after a start that succeeds, with the threads as the task leaves them.
  abbrev ready : List EpollThread → Act → Server Act → ThreadMap → Server Act
  ready started act s threads = record (init_managers started act s) {
    threads = threads;
    timers =
        register_timer_fun (some update_2s) 2000
          (register_timer_fun (some update_1s) 1000 s.timers);
  }

  opens :
      (started : List EpollThread) (calls : SocketCalls) (act : Act) (s : Server Act)
      (t : EpollThread) (threads : ThreadMap) (task : Listening)
      → listens calls ≡ true
      → create_task (do_listen calls (listener_at 0 server_port device_server_external)).1
        ≡ some task
      → push_task (task_listener task) (Turns.init started s.threads) ≡ (t.thread_id, threads)
      → init started calls act s ≡ some (true, ready started act s threads)
  unfolding init open_server init_managers
  opens started calls act s t threads task listening made pushed =
      ground (arith, listening, made, pushed)

  -- `ServerHandler::init` with at least one epoll thread, when `bind` refuses descriptors that are not
  -- open. If the server cannot listen, it returns false, and nobody is told to listen and no timer is
  -- registered. Otherwise it returns true: one epoll thread of least pressure, and no other, has the task
  -- to listen on port 8888, the timers of one and of two seconds are registered, and the heart-beat has
  -- its action. In both cases the numbers of new players begin at 1001 and those of new sessions at 1, and
  -- the tables of players and sessions are as before.
  pub init-Started :
      (first : EpollThread) (started : List EpollThread) (calls : SocketCalls) (act : Act)
      (s : Server Act)
      → ((fd : ℤ) → ltb_ℤ fd (pos 0) ≡ true → ltb_ℤ (calls.bind fd) (pos 0) ≡ true)
      → IsValid s.threads
      → ((listens calls ≡ false)
          × (init (first ∷ started) calls act s
              ≡ some (false, init_managers (first ∷ started) act s))
          × ((init_managers (first ∷ started) act s).threads
              ≡ Turns.init (first ∷ started) s.threads)
          × ((init_managers (first ∷ started) act s).timers ≡ s.timers)
          × ((init_managers (first ∷ started) act s).manager ≡ numbered s.manager))
        ⊎ ((s' : Server Act) × (init (first ∷ started) calls act s ≡ some (true, s'))
            × Started (first ∷ started) calls act s s')
  unfolding PlayerManager.init Ops.init init init_managers register_timer_fun get_thread_id
      new_listener listener_at
  init-Started first started calls act s refuses v = elim (Bool-cases (listens calls)) [
    | inr refused ↦ inl (refused, rw (refused, init) refl, refl, refl, refl)
    | inl listening ↦
        let l = listener_at 0 server_port device_server_external in
        let (made, _) = do_listen-create_task calls l refuses listening in
        let (v', some_there) = init-IsValid first started s.threads v in
        let (t, threads, pushed, chosen, least, told) =
          push_task-IsLeast (listen_task calls) (Turns.init (first ∷ started) s.threads) v'
            some_there refl in
        inr (
          ready (first ∷ started) act s threads,
          opens (first ∷ started) calls act s t threads _ listening made pushed,
          record {
            thread = t;
            chosen = chosen;
            least = least;
            told = told;
            timers =
                append_assoc s.timers.m_vec_timer_fun (timer_of update_1s ∷ [])
                  (timer_of update_2s ∷ []);
            action = found_heart_beat act s.actions;
            manager = refl;
          },
        )
  ]
