-- ===== src/Task.antt =====
-- oryx/task.h and task/: the tasks that the logic thread and the epoll threads hand one another.
-- A task node's function pointers always belong to the task's own class, so a node is the task.
use oryxgame.Common.{Bool, true, false, ◌||◌, Option, none, some, ltb, ◌==◌, if◌then◌else◌, length}
use oryxgame.Common.Int.{ℤ, pos}
use oryxgame.Common.Bytes.{Bytes}
use oryxgame.Device.{DeviceType, SockAddr, max_send_buffer_len}

-- `enum TASK_TYPE`
pub data TaskType : Type 0 where
  task_type_none : TaskType
  task_type_listener : TaskType
  task_type_clientconn : TaskType
  task_type_clientconn_insert : TaskType
  task_type_clientconn_delete : TaskType
  task_type_clientconn_onclose : TaskType
  task_type_clientconn_packet : TaskType
  task_type_send_packet : TaskType

pub record Listening : Type 0 where
  pub thrd_id : ℤ
  pub listen_fd : ℤ
  pub device_type : DeviceType
  pub sock_addr : SockAddr

pub record ClientConn : Type 0 where
  pub thrd_id : ℤ
  pub client_fd : ℤ
  pub device_type : DeviceType
  pub sock_addr : SockAddr

pub record ClientConnInsert : Type 0 where
  pub thrd_id : ℤ
  pub client_fd : ℤ
  pub device_type : DeviceType
  pub session_id : ℤ
  pub sock_addr : SockAddr

pub record ClientConnOnClose : Type 0 where
  pub thrd_id : ℤ
  pub session_id : ℤ

pub record ClientConnDelete : Type 0 where
  pub thrd_id : ℤ
  pub session_id : ℤ

-- `data_packet` and `data_size` are one field, `none` for the null pointer.
pub record ClientConnPacket : Type 0 where
  pub thrd_id : ℤ
  pub session_id : ℤ
  pub packet : Option Bytes

pub record SendPacket : Type 0 where
  pub thrd_id : ℤ
  pub session_id : ℤ
  pub packet : Option Bytes

-- `tagThreadTaskNode`
pub data Task : Type 0 where
  task_listener : Listening → Task
  task_client_conn : ClientConn → Task
  task_client_conn_insert : ClientConnInsert → Task
  task_client_conn_on_close : ClientConnOnClose → Task
  task_client_conn_delete : ClientConnDelete → Task
  task_client_conn_packet : ClientConnPacket → Task
  task_send_packet : SendPacket → Task

unfoldable pub get_task_type : Task → TaskType
get_task_type (task_listener t) = task_type_listener
get_task_type (task_client_conn t) = task_type_clientconn
get_task_type (task_client_conn_insert t) = task_type_clientconn_insert
get_task_type (task_client_conn_on_close t) = task_type_clientconn_onclose
get_task_type (task_client_conn_delete t) = task_type_clientconn_delete
get_task_type (task_client_conn_packet t) = task_type_clientconn_packet
get_task_type (task_send_packet t) = task_type_send_packet

unfoldable pub get_thread_id : Task → ℤ
get_thread_id (task_listener t) = t.thrd_id
get_thread_id (task_client_conn t) = t.thrd_id
get_thread_id (task_client_conn_insert t) = t.thrd_id
get_thread_id (task_client_conn_on_close t) = t.thrd_id
get_thread_id (task_client_conn_delete t) = t.thrd_id
get_thread_id (task_client_conn_packet t) = t.thrd_id
get_thread_id (task_send_packet t) = t.thrd_id

-- The constructors.
unfoldable pub new_listener : ℤ → DeviceType → SockAddr → Listening
new_listener fd type addr = record {
  thrd_id = pos 0;
  listen_fd = fd;
  device_type = type;
  sock_addr = addr;
}

unfoldable pub new_client_conn : ℤ → ℤ → DeviceType → SockAddr → ClientConn
new_client_conn thread fd type addr = record {
  thrd_id = thread;
  client_fd = fd;
  device_type = type;
  sock_addr = addr;
}

unfoldable pub new_client_conn_insert : ℤ → DeviceType → SockAddr → ClientConnInsert
new_client_conn_insert fd type addr = record {
  thrd_id = pos 0;
  client_fd = fd;
  device_type = type;
  session_id = pos 0;
  sock_addr = addr;
}

unfoldable pub new_client_conn_on_close : ℤ → ℤ → ClientConnOnClose
new_client_conn_on_close thread session = record { thrd_id = thread; session_id = session }

unfoldable pub new_client_conn_delete : ℤ → ℤ → ClientConnDelete
new_client_conn_delete thread session = record { thrd_id = thread; session_id = session }

unfoldable pub new_client_conn_packet : ℤ → ℤ → ClientConnPacket
new_client_conn_packet thread session = record {
  thrd_id = thread;
  session_id = session;
  packet = none;
}

unfoldable pub new_send_packet : ℤ → ℤ → SendPacket
new_send_packet thread session = record { thrd_id = thread; session_id = session; packet = none }

-- The terminating byte behind the copy is not part of the packet.
unfoldable pub init_client_packet : ClientConnPacket → Option Bytes → ClientConnPacket
init_client_packet t none = t
init_client_packet t (some bytes) =
    if ltb 0 (length bytes) then record t { packet = some bytes } else t

unfoldable pub init_send_packet : SendPacket → Option Bytes → Bool × SendPacket
init_send_packet t none = (false, t)
init_send_packet t (some bytes) =
    if length bytes == 0 || ltb max_send_buffer_len (length bytes)
    then (false, t)
    else (true, record t { packet = some bytes })
