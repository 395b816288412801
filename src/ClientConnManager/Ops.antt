-- ===== src/ClientConnManager/Ops.antt =====
-- The operations of `ClientConnManager` (oryx/ClientConnManager.h, oryx/ClientConnManager.cpp).
use oryxgame.Common.{Bool, true, false, Option, none, some, ◌==◌, if◌then◌else◌, length}
use oryxgame.Common.Int.{ℤ, pos}
use oryxgame.Common.Map.{find, insert, erase}
use oryxgame.Common.Bytes.{Bytes}
use oryxgame.Device.{DeviceType, SockAddr}
use oryxgame.Task.{
  task_client_conn_delete, task_send_packet, new_client_conn_delete, new_send_packet,
  init_send_packet,
}
use oryxgame.ClientConnManager.State.{
  SessionConn, Manager, Address, M, ◌>>=◌, ◌>>◌, give, update_manager, load, push_task, new_session,
  delete_session,
}

-- The virtual functions.
pub record Virtual : Type 0 where
  pub on_session_begin : Address → M (Unit {0})
  pub on_session_close : Address → M (Unit {0})

-- Those of `ClientConnManager` itself.
abbrev pub conn_manager : Virtual
conn_manager = record { on_session_begin = λ p. give tt; on_session_close = λ p. give tt }

unfoldable pub session_conn : ℤ → ℤ → DeviceType → SockAddr → SessionConn
session_conn thread session type addr = record {
  thread_id = thread;
  session_id = session;
  player_id = pos 0;
  device_type = type;
  sock_addr = addr;
}

unfoldable pub init : Manager → Manager
init m = record m { auto_incri_session_id = 1 }

unfoldable pub get_session_by_session_id : ℤ → M (Option Address)
get_session_by_session_id session m = some (find session m.session_conn_info, m)

unfoldable pub add_new_conn : Virtual → ℤ → ℤ → DeviceType → SockAddr → M Bool
add_new_conn v thread session type addr = do
  existing ← get_session_by_session_id session
  elim existing [
    | some _ ↦ give false
    | none ↦ do
      conn ← new_session (session_conn thread session type addr)
      update_manager (λ m. record m { session_conn_info = insert session conn m.session_conn_info })
      v.on_session_begin conn
      give true
  ]

-- The object is deleted before `onSessionClose` is called with it.
unfoldable pub remove_session_conn : Virtual → ℤ → M (Unit {0})
remove_session_conn v session = do
  existing ← get_session_by_session_id session
  elim existing [
    | none ↦ give tt
    | some conn ↦ do
      delete_session conn
      v.on_session_close conn
      update_manager (λ m. record m { session_conn_info = erase session m.session_conn_info })
  ]

unfoldable pub close_conn : Virtual → ℤ → M (Unit {0})
close_conn v session = do
  existing ← get_session_by_session_id session
  elim existing [
    | none ↦ give tt
    | some p ↦ do
      conn ← load p
      push_task (task_client_conn_delete (new_client_conn_delete conn.thread_id conn.session_id))
      remove_session_conn v session
  ]

unfoldable pub send_msg_to_session : ℤ → Bytes → M Bool
send_msg_to_session session bytes = do
  existing ← get_session_by_session_id session
  elim existing [
    | none ↦ give false
    | some p ↦ do
      conn ← load p
      let sending = init_send_packet (new_send_packet conn.thread_id session) (some bytes)
      elim sending.0 [
        | true ↦ do push_task (task_send_packet sending.1); give true
        | false ↦ give false
      ]
  ]

-- `sendMsgToConn`; the data and its length are one argument, `none` for a null pointer.
unfoldable pub send_msg_to_conn : ℤ → Option Bytes → M Bool
send_msg_to_conn session none = give false
send_msg_to_conn session (some bytes) =
    if length bytes == 0 then give false else send_msg_to_session session bytes
