-- ===== src/Epoll/Events.antt =====
-- The events of epoll and the tasks of the logic thread (oryx/EpollHandler.h, oryx/EpollHandler.cpp).
pub mod Steps
pub mod Safety
pub mod Rounds
pub mod Tasks
pub mod Queueing
pub mod Sending
use oryxgame.Common.{
  ℕ, Bool, true, false, Option, none, some, List, [], ◌∷◌, ◌++◌, ltb, if◌then◌else◌, length,
}
use oryxgame.Common.Int.{ℤ, pos}
use oryxgame.Common.Bytes.{Bytes}
use oryxgame.Device.{
  Device, DeviceType, device_unknown, device_server_internal, device_server_external,
  device_client_internal, device_client_external, device_max, SockAddr, write,
  get_client_device_type,
}
use oryxgame.Task.{
  Task, Listening, ClientConnInsert, ClientConnDelete, SendPacket, task_client_conn, task_listener,
  task_client_conn_insert, task_client_conn_delete, task_client_conn_packet, task_send_packet,
  task_client_conn_on_close, new_client_conn, new_client_conn_on_close,
}
use oryxgame.Epoll.Read.{Recv, recv_loop}
use oryxgame.Epoll.Write.{Send, write_device}
use oryxgame.Epoll.State.{
  Address, set_nonblocking, Handler, M, ◌>>=◌, ◌>>◌, give, get_handler, update_handler, load, store,
  sys_call, push_task_main,
}
use oryxgame.Epoll.Devices.{
  get_device_by_fd, get_device_by_session, get_device_type_by_fd, epoll_register, add_device,
  remove_device_by_session, remove_device_by_fd,
}

-- What the system calls of one event return: `accept` until it fails, `recv` and `send`.
pub record Calls : Type 0 where
  pub accepts : List (ℤ × SockAddr)
  pub recvs : List Recv
  pub sends : List Send

-- `struct epoll_event`: the descriptor, and whether EPOLLOUT and EPOLLIN are set.
pub record Event : Type 0 where
  pub fd : ℤ
  pub writable : Bool
  pub readable : Bool

-- The loop of `doAccept`, for a device of this type.
unfoldable pub accept_loop : ℤ → DeviceType → List (ℤ × SockAddr) → M (Unit {0})
accept_loop thread type [] = give tt
accept_loop thread type ((fd, addr) ∷ accepts) = do
  sys_call (set_nonblocking fd)
  push_task_main (task_client_conn (new_client_conn thread fd (get_client_device_type type) addr))
  accept_loop thread type accepts

unfoldable pub do_accept : List (ℤ × SockAddr) → ℤ → M Bool
do_accept accepts fd = do
  found ← get_device_by_fd fd
  elim found [
    | none ↦ give false
    | some p ↦ do
      d ← load p
      h ← get_handler
      accept_loop h.thread_id d.device_type accepts
      give true
  ]

unfoldable pub do_read : List Recv → ℤ → M Bool
do_read recvs fd = do
  found ← get_device_by_fd fd
  elim found [
    | none ↦ give false
    | some p ↦ do
      d ← load p
      h ← get_handler
      let reading = recv_loop h.thread_id recvs d
      store p reading.device
      update_handler (λ h. record h { main_queue = h.main_queue ++ reading.tasks })
      give reading.result
  ]

unfoldable pub do_write : List Send → ℤ → M Bool
do_write sends fd = do
  found ← get_device_by_fd fd
  elim found [
    | none ↦ give false
    | some p ↦ do
      d ← load p
      store p (write_device sends d).device
      give (write_device sends d).result
  ]

-- The logic thread is told that the connection is closed.
unfoldable pub push_on_close : ℤ → M (Unit {0})
push_on_close session = do
  h ← get_handler
  push_task_main (task_client_conn_on_close (new_client_conn_on_close h.thread_id session))

-- The size of the data, 0 for a null pointer.
abbrev pub data_size : Option Bytes → ℕ
data_size none = 0
data_size (some bytes) = length bytes

-- The first part of `WritePacketToConn`: whether the packet was queued and sending did not fail.
unfoldable pub queue_packet : List Send → SendPacket → Address → M Bool
queue_packet sends t p = do
  d ← load p
  store p (write d t.packet).1
  if ltb (write d t.packet).0 (data_size t.packet) then give false else do_write sends d.fd

unfoldable pub write_packet_to_conn : List Send → SendPacket → M (Unit {0})
write_packet_to_conn sends t = do
  found ← get_device_by_session t.session_id
  elim found [
    | none ↦ give tt
    | some p ↦ do
      result ← queue_packet sends t p
      if result
          then give tt
          else (do d ← load p; push_on_close d.session_id; remove_device_by_fd d.fd)
  ]

-- The end of a round of `doEpollEvents` for a connection that failed.
unfoldable pub close_broken : ℤ → M (Unit {0})
close_broken fd = do
  found ← get_device_by_fd fd
  elim found [ none ↦ give tt | some p ↦ do d ← load p; push_on_close d.session_id ]
  remove_device_by_fd fd

-- The cases for clients and for listening sockets, and `eventResult`.
unfoldable pub read_event : Calls → Event → M Bool
read_event calls e = if e.readable then do_read calls.recvs e.fd else give true

unfoldable pub client_event : Calls → Event → M Bool
client_event calls e = do
  written ← if e.writable then do_write calls.sends e.fd else give true
  if written then read_event calls e else give false

unfoldable pub listen_event : Calls → Event → M Bool
listen_event calls e = do accepted ← do_accept calls.accepts e.fd; give true

unfoldable pub event_of_type : DeviceType → Calls → Event → M Bool
event_of_type device_server_internal calls e = listen_event calls e
event_of_type device_server_external calls e = listen_event calls e
event_of_type device_client_internal calls e = client_event calls e
event_of_type device_client_external calls e = client_event calls e
event_of_type device_unknown calls e = give true
event_of_type device_max calls e = give true

-- One round of `doEpollEvents`.
unfoldable pub do_event : Calls → Event → M (Unit {0})
do_event calls e = do
  type ← get_device_type_by_fd e.fd
  result ← event_of_type type calls e
  if result then give tt else close_broken e.fd

-- `epoll_wait` stores at most `MAXEVENTS` events.
unfoldable pub do_epoll_events : List (Calls × Event) → M (Unit {0})
do_epoll_events [] = give tt
do_epoll_events ((calls, e) ∷ events) = do do_event calls e; do_epoll_events events

-- `registered` tells whether `epoll_ctl` succeeds, and `raw` is the memory that `new` finds.
unfoldable pub add_listener : Bool → Device → Listening → M (Unit {0})
add_listener registered raw t = do
  result ← epoll_register registered t.listen_fd
  if result
      then (do added ← add_device raw t.listen_fd (pos 0) t.device_type t.sock_addr; give tt)
      else give tt

-- The result is the task, which now names this thread.
unfoldable pub add_client_conn : Bool → Device → ClientConnInsert → M ClientConnInsert
add_client_conn registered raw t = do
  h ← get_handler
  result ← epoll_register registered t.client_fd
  if result
      then (do added ← add_device raw t.client_fd t.session_id t.device_type t.sock_addr; give tt)
      else give tt
  give (record t { thrd_id = h.thread_id })

unfoldable pub del_client_conn : ClientConnDelete → M (Unit {0})
del_client_conn t = remove_device_by_session t.session_id

-- The switch of `dotask`. `Thread::dotask` then calls the task's `on_thread_call`, which is empty for the
-- tasks that come here.
unfoldable pub dotask : Bool → Device → List Send → Task → M Task
dotask registered raw sends (task_listener t) = do
  add_listener registered raw t
  give (task_listener t)
dotask registered raw sends (task_client_conn_insert t) = do
  named ← add_client_conn registered raw t
  give (task_client_conn_insert named)
dotask registered raw sends (task_client_conn_delete t) = do
  del_client_conn t
  give (task_client_conn_delete t)
dotask registered raw sends (task_send_packet t) = do
  write_packet_to_conn sends t
  give (task_send_packet t)
dotask registered raw sends (task_client_conn t) = give (task_client_conn t)
dotask registered raw sends (task_client_conn_on_close t) = give (task_client_conn_on_close t)
dotask registered raw sends (task_client_conn_packet t) = give (task_client_conn_packet t)
