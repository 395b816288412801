-- ===== src/TaskCalls.antt =====
-- The functions that tasks run on the logic thread (task/task_clientConn.cpp, task/task_clientPacket.cpp).
pub mod Accepting
pub mod Freeing
use oryxgame.Common.{ℕ, Bool, true, false, Option, none, some, if◌then◌else◌}
use oryxgame.Common.Int.{ℤ, pos, ltb_ℤ}
use oryxgame.Task.{
  Task, ClientConn, ClientConnInsert, ClientConnOnClose, task_client_conn_insert,
  new_client_conn_insert,
}
use oryxgame.ThreadManager.{ThreadMap, push_task}
use oryxgame.ClientConnManager.{Manager}
use oryxgame.ClientConnManager.Ops.{Virtual, add_new_conn, remove_session_conn}
use oryxgame.ClientConnManager.SessionId.{get_rand_new_session}

-- The two managers that the tasks work on.
pub record Logic : Type 0 where
  pub manager : Manager
  pub threads : ThreadMap

-- The task for the new connection, with its session.
unfoldable pub insertion : ClientConn → ℤ → ClientConnInsert
insertion t session = record (new_client_conn_insert t.client_fd t.device_type t.sock_addr) {
  session_id = session;
}

-- The end of `task_clientConn::on_thread_call`: the thread that took the task serves the session.
unfoldable pub add_served : Virtual → ClientConn → ℤ → ℤ → Logic → Option Logic
add_served v t thread session s =
    if ltb_ℤ (pos 0) thread
    then elim (add_new_conn v thread session t.device_type t.sock_addr s.manager) [
      | none ↦ none
      | some (added, m) ↦ some (record s { manager = m })
    ]
    else some s

-- `task_clientConn::on_thread_call`, given what `GetCourrentTime` returns and fuel for
-- `getRandNewSession`; `none` if the fuel runs out or a deleted session is used.
unfoldable pub client_conn_on_thread_call :
    Virtual → ℕ → (ℕ → ℕ) → ClientConn → Logic → Option Logic
client_conn_on_thread_call v fuel clock t s = elim (get_rand_new_session fuel clock s.manager) [
  | none ↦ none
  | some (session, m) ↦
      let pushed = push_task (task_client_conn_insert (insertion t session)) s.threads in
      add_served v t pushed.0 session (record { manager = m; threads = pushed.1 })
]

-- `task_clientConnOnClose::on_thread_call`
unfoldable pub on_close_on_thread_call : Virtual → ClientConnOnClose → Logic → Option Logic
on_close_on_thread_call v t s = elim (remove_session_conn v t.session_id s.manager) [
  | none ↦ none
  | some (done, m) ↦ some (record s { manager = m })
]
