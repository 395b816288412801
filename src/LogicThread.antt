-- ===== src/LogicThread.antt =====
-- The functions `on_thread_call` of task/ on the logic thread, as `Task::OnExcute` (oryx/task.h) calls them.
pub mod Serving
pub mod Lasting
use oryxgame.Common.{ℕ, Option, none, some, List, [], ◌∷◌}
use oryxgame.Common.Map.{Map}
use oryxgame.Common.Bytes.{Allocator}
use oryxgame.Task.{
  Task, ClientConnPacket, task_client_conn, task_listener, task_client_conn_insert,
  task_client_conn_delete, task_client_conn_packet, task_send_packet, task_client_conn_on_close,
}
use oryxgame.TaskCalls.{Logic, client_conn_on_thread_call, on_close_on_thread_call}
use oryxgame.PlayerManager.{player_manager}
use oryxgame.MessageHandler.{process_message}
use oryxgame.MessageHandler.Answering.{Only, answer}

-- The managers of the logic thread, and the table of actions. `ServerHandler::init` registers one action.
pub record World : Type 0 where
  pub logic : Logic
  pub actions : Map (Option Only)

-- A task, and what `GetCourrentTime` returns while it runs.
abbrev pub Call : Type 0
Call = Task × (ℕ → ℕ)

with_logic : World → Option Logic → Option World
with_logic s none = none
with_logic s (some logic) = some (record s { logic = logic })

-- That of a packet; `none` if a deleted session is used.
unfoldable pub packet_on_thread_call : Allocator → ClientConnPacket → World → Option World
packet_on_thread_call heap t s =
    let r = process_message heap answer (some t) s.actions (some s.logic.manager) in
    elim r.state [
      | none ↦ none
      | some m ↦ some (record { logic = record s.logic { manager = m }; actions = r.table })
    ]

-- That of any task. Those of the tasks for the epoll threads are empty.
unfoldable pub on_thread_call : Allocator → ℕ → (ℕ → ℕ) → Task → World → Option World
unfolding with_logic
on_thread_call heap fuel clock (task_client_conn t) s =
    with_logic s (client_conn_on_thread_call player_manager fuel clock t s.logic)
on_thread_call heap fuel clock (task_client_conn_on_close t) s =
    with_logic s (on_close_on_thread_call player_manager t s.logic)
on_thread_call heap fuel clock (task_client_conn_packet t) s = packet_on_thread_call heap t s
on_thread_call heap fuel clock (task_listener t) s = some s
on_thread_call heap fuel clock (task_client_conn_insert t) s = some s
on_thread_call heap fuel clock (task_client_conn_delete t) s = some s
on_thread_call heap fuel clock (task_send_packet t) s = some s

-- The tasks of the epoll threads, one after another, as `Thread::dotask` runs them; Thread has their queues.
unfoldable pub on_thread_calls : Allocator → ℕ → List Call → World → Option World
on_thread_calls heap fuel [] s = some s
on_thread_calls heap fuel ((t, clock) ∷ calls) s = elim (on_thread_call heap fuel clock t s) [
  | none ↦ none
  | some s' ↦ on_thread_calls heap fuel calls s'
]
