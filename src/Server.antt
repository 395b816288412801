-- ===== src/Server.antt =====
-- logic/ServerHandler.h, logic/ServerHandler.cpp and logic/ServerMain.cpp: how the server starts, and the
-- loop of the logic thread.
pub mod Starting
pub mod Running
use oryxgame.Common.{
  ℕ, ◌+◌, Bool, true, false, ◌&&◌, Option, none, some, List, [], ◌∷◌, leb, if◌then◌else◌,
}
use oryxgame.Common.Int.{ℤ}
use oryxgame.Common.Map.{Map}
use oryxgame.Device.{device_server_external}
use oryxgame.Task.{task_listener}
use oryxgame.SpscQueue.{BoundedQueue, Spsc}
use oryxgame.Thread.{Thread}
use oryxgame.ThreadManager.{EpollThread, ThreadMap, push_task}
use oryxgame.ThreadManager.Turns
use oryxgame.TimerControl.{TimeVal, TimerControl, register_timer_fun}
use oryxgame.TimerControl
use oryxgame.ClientConnManager.{Manager}
use oryxgame.PlayerManager
use oryxgame.LogManager.{LogManager}
use oryxgame.LogManager
use oryxgame.Listener.{Listener, SocketCalls, listener_at, do_listen, create_task}
use oryxgame.MessageHandler.{init_test_action}

-- The functions that the server registers; all that they do is to write a line to the log.
pub data TimerFun : Type 0 where
  update_1s : TimerFun
  update_2s : TimerFun

-- What `init` works on: the timers are those of the base class of `ServerHandler`, the others are
-- singletons; `PlayerManager` is the only `ClientConnManager`. `Act` stands for the actions.
pub record Server (Act : Type 0) : Type 0 where
  pub log : LogManager
  pub threads : ThreadMap
  pub manager : Manager
  pub actions : Map (Option Act)
  pub timers : TimerControl TimerFun

-- 8888 in network order.
abbrev pub server_port : ℕ
server_port = 47138

module _ {Act : Type 0} where
  -- `init` up to the log's first line: `started` are the epoll threads that run.
  unfoldable pub init_managers : List EpollThread → Act → Server Act → Server Act
  init_managers started act s = record s {
    log = (LogManager.init s.log).1;
    threads = Turns.init started s.threads;
    manager = PlayerManager.init s.manager;
    actions = init_test_action act s.actions;
  }

  -- The end of `init`; `none` is the use of a null pointer.
  unfoldable pub open_server : Listener → Server Act → Option (Bool × Server Act)
  open_server l s = elim (create_task l) [
    | none ↦ none
    | some t ↦ some (
      true,
      record s {
        threads = (push_task (task_listener t) s.threads).1;
        timers =
            register_timer_fun (some update_2s) 2000
              (register_timer_fun (some update_1s) 1000 s.timers);
      },
    )
  ]

  -- `ServerHandler::init`, after the process has become a daemon.
  unfoldable pub init :
      List EpollThread → SocketCalls → Act → Server Act → Option (Bool × Server Act)
  init started calls act s =
      let (listening, l) = do_listen calls (listener_at 0 server_port device_server_external) in
      let ready = init_managers started act s in
      if listening then open_server l ready else some (false, ready)

-- What a round of the loop leaves, and whether it slept.
pub record Ran (A Q S Fun : Type 0) : Type 0 where
  pub slept : Bool
  pub calls : List (Fun × ℕ)
  pub timers : TimerControl Fun
  pub turn : Turns.Turn A Q S

module _ {A S Fun : Type 0} (b : BoundedQueue A)
    (dotask : A → S × Spsc A b.Queue → A × (S × Spsc A b.Queue))
    (dotask_complete : A → S × Spsc A b.Queue → S × Spsc A b.Queue) where
  -- One round of `ServerHandler::run`.
  unfoldable pub run_round :
      TimeVal → TimerControl Fun → List (ℤ × Option (Thread A b.Queue)) → S → Ran A b.Queue S Fun
  run_round now timers threads s =
      let u = TimerControl.update now timers in
      let turn = Turns.update b dotask dotask_complete threads s in
      record {
        slept = leb turn.count 0 && leb u.timer_nums 0;
        calls = u.calls;
        timers = u.state;
        turn = turn;
      }
