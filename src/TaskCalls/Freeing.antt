-- ===== src/TaskCalls/Freeing.antt =====
-- `on_main_call` and `on_free` of the tasks (task/*.cpp), which `Task::OnComplete` (oryx/task.h) calls.
use oryxgame.Common.{◌≡◌, refl, Option, none, some, List, [], ◌∷◌, ◌++◌}
use oryxgame.Common.Bytes.{Bytes}
use oryxgame.Task.{
  Task, task_client_conn, task_listener, task_client_conn_insert, task_client_conn_delete,
  task_client_conn_packet, task_send_packet, task_client_conn_on_close,
}

-- The memory of a task: the object, and the copy of the packet that `InitData` makes.
pub data Block : Type 0 where
  object : Block
  data_packet : Block

copied : Option Bytes → List Block
copied none = []
copied (some bytes) = data_packet ∷ []

-- What the constructor and `InitData` have allocated.
unfoldable pub allocated : Task → List Block
unfolding copied
allocated (task_client_conn_packet t) = copied t.packet ++ (object ∷ [])
allocated (task_send_packet t) = copied t.packet ++ (object ∷ [])
allocated (task_client_conn t) = object ∷ []
allocated (task_listener t) = object ∷ []
allocated (task_client_conn_insert t) = object ∷ []
allocated (task_client_conn_delete t) = object ∷ []
allocated (task_client_conn_on_close t) = object ∷ []

-- What `on_free` deletes.
unfoldable pub on_free : Task → List Block
unfolding copied
on_free (task_client_conn_packet t) = copied t.packet ++ (object ∷ [])
on_free (task_send_packet t) = object ∷ []
on_free (task_client_conn t) = object ∷ []
on_free (task_listener t) = object ∷ []
on_free (task_client_conn_insert t) = object ∷ []
on_free (task_client_conn_delete t) = object ∷ []
on_free (task_client_conn_on_close t) = object ∷ []

-- `OnComplete`: `on_main_call` is empty for every task.
unfoldable pub on_complete : Task → List Block
on_complete t = on_free t

-- What a task leaves behind: the packet, if it is one to send.
leaked : Task → List Block
unfolding copied
leaked (task_send_packet t) = copied t.packet
leaked (task_client_conn_packet t) = []
leaked (task_client_conn t) = []
leaked (task_listener t) = []
leaked (task_client_conn_insert t) = []
leaked (task_client_conn_delete t) = []
leaked (task_client_conn_on_close t) = []

-- When a task is complete, all of its memory is deleted, but for the packet of a task to send one.
on_complete-allocated : (t : Task) → allocated t ≡ leaked t ++ on_complete t
unfolding allocated on_complete on_free leaked copied
on_complete-allocated (task_send_packet t) = refl
on_complete-allocated (task_client_conn_packet t) = refl
on_complete-allocated (task_client_conn t) = refl
on_complete-allocated (task_listener t) = refl
on_complete-allocated (task_client_conn_insert t) = refl
on_complete-allocated (task_client_conn_delete t) = refl
on_complete-allocated (task_client_conn_on_close t) = refl
