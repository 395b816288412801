-- ===== src/Epoll/State.antt =====
-- The state of an `EpollHandler` (oryx/EpollHandler.h), and the monad over it. Devices are objects that
-- two tables point to; `none` is an access to a device that was deleted.
use oryxgame.Common.{ℕ, ◌+◌, Option, none, some, List, [], ◌∷◌, ◌++◌}
use oryxgame.Common.Int.{ℤ, pos, ◌+ℤ◌}
use oryxgame.Common.Map.{Map, find, insert, erase}
use oryxgame.Device.{Device}
use oryxgame.Task.{Task}

abbrev pub Address : Type 0
Address = ℤ

-- The system calls that change a socket or the set that epoll watches.
pub data SysCall : Type 0 where
  set_nonblocking : ℤ → SysCall
  epoll_add : ℤ → SysCall
  epoll_del : ℤ → SysCall
  close_fd : ℤ → SysCall

-- `class EpollHandler`: both tables, the heap of devices, the pressure of `Thread`, the tasks that were
-- pushed to the main queue, oldest first, and the system calls that were made, oldest first.
pub record Handler : Type 0 where
  pub thread_id : ℤ
  pub pressure : ℤ
  pub devices : Map Device
  pub next_device : ℕ
  pub map_device_info : Map Address
  pub map_device_session_info : Map Address
  pub main_queue : List Task
  pub sys_calls : List SysCall

abbrev pub M : Type 0 → Type 0
M A = Handler → Option (A × Handler)

infixl 5 ◌>>=◌ ◌>>◌
abbrev pub ◌>>=◌ : {A B : Type 0} → M A → (A → M B) → M B
◌>>=◌ m f s = elim (m s) [ none ↦ none | some (a, s') ↦ f a s' ]

abbrev pub ◌>>◌ : {B : Type 0} → M (Unit {0}) → M B → M B
m >> k = m >>= λ _. k

abbrev pub give : {A : Type 0} → A → M A
give a s = some (a, s)

abbrev pub get_handler : M Handler
get_handler s = some (s, s)

abbrev pub update_handler : (Handler → Handler) → M (Unit {0})
update_handler f s = some (tt, f s)

unfoldable pub load : Address → M Device
load p s = elim (find p s.devices) [ none ↦ none | some d ↦ some (d, s) ]

unfoldable pub store : Address → Device → M (Unit {0})
store p d s = elim (find p s.devices) [
  | none ↦ none
  | some _ ↦ some (tt, record s { devices = insert p d s.devices })
]

unfoldable pub new_device : Device → M Address
new_device d s =
    let p = pos s.next_device in
    some (p, record s { devices = insert p d s.devices; next_device = s.next_device + 1 })

unfoldable pub delete_device : Address → M (Unit {0})
delete_device p s = elim (find p s.devices) [
  | none ↦ none
  | some _ ↦ some (tt, record s { devices = erase p s.devices })
]

unfoldable pub sys_call : SysCall → M (Unit {0})
sys_call c s = some (tt, record s { sys_calls = s.sys_calls ++ (c ∷ []) })

-- `push_task_main`
unfoldable pub push_task_main : Task → M (Unit {0})
push_task_main t s = some (tt, record s { main_queue = s.main_queue ++ (t ∷ []) })

-- `addPressure`
unfoldable pub add_pressure : ℤ → M (Unit {0})
add_pressure n s = some (tt, record s { pressure = s.pressure +ℤ n })
