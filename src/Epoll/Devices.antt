-- ===== src/Epoll/Devices.antt =====
-- The tables of devices of an `EpollHandler` (oryx/EpollHandler.h, oryx/EpollHandler.cpp).
use oryxgame.Common.{Bool, true, false, ◌||◌, Option, none, some, if◌then◌else◌}
use oryxgame.Common.Int.{ℤ, pos, negsuc}
use oryxgame.Common.Map.{find, insert, erase}
use oryxgame.Device.{Device, DeviceType, SockAddr, device_unknown, device_info}
use oryxgame.Epoll.State.{
  Address, set_nonblocking, epoll_add, epoll_del, close_fd, M, ◌>>=◌, ◌>>◌, give, update_handler,
  load, new_device, delete_device, sys_call, add_pressure,
}

unfoldable pub get_device_by_fd : ℤ → M (Option Address)
get_device_by_fd fd h = some (find fd h.map_device_info, h)

unfoldable pub get_device_by_session : ℤ → M (Option Address)
get_device_by_session session h = some (find session h.map_device_session_info, h)

unfoldable pub type_of_device : Option Address → M DeviceType
type_of_device none = give device_unknown
type_of_device (some p) = do d ← load p; give d.device_type

unfoldable pub get_device_type_by_fd : ℤ → M DeviceType
get_device_type_by_fd fd = do p ← get_device_by_fd fd; type_of_device p

unfoldable pub get_device_type_by_session : ℤ → M DeviceType
get_device_type_by_session session = do p ← get_device_by_session session; type_of_device p

-- `EpollRegister`, given whether `epoll_ctl` succeeds.
unfoldable pub epoll_register : Bool → ℤ → M Bool
epoll_register added fd = do sys_call (set_nonblocking fd); sys_call (epoll_add fd); give added

unfoldable pub epoll_remove : ℤ → M (Unit {0})
epoll_remove fd = sys_call (epoll_del fd)

is_some : Option Address → Bool
is_some none = false
is_some (some _) = true

-- `raw` is the memory that `new` finds.
unfoldable pub add_device : Device → ℤ → ℤ → DeviceType → SockAddr → M Bool
unfolding is_some
add_device raw fd session type addr = do
  same_session ← get_device_by_session session
  same_fd ← get_device_by_fd fd
  if is_some same_session || is_some same_fd then give false else (do
    p ←
        new_device
          (record (device_info raw type) { fd = fd; session_id = session; sock_addr = addr })
    update_handler (λ h. record h {
      map_device_info = insert fd p h.map_device_info;
      map_device_session_info = insert session p h.map_device_session_info;
    })
    add_pressure (pos 1)
    give true)

-- The part that both removals share: the pressure, both tables and the object.
unfoldable pub forget_device : Address → Device → M (Unit {0})
forget_device p d = do
  add_pressure (negsuc 0)
  update_handler (λ h. record h {
    map_device_info = erase d.fd h.map_device_info;
    map_device_session_info = erase d.session_id h.map_device_session_info;
  })
  delete_device p

-- Here the socket is closed before epoll is told.
unfoldable pub remove_device_by_session : ℤ → M (Unit {0})
remove_device_by_session session = do
  found ← get_device_by_session session
  elim found [
    | none ↦ give tt
    | some p ↦ do d ← load p; sys_call (close_fd d.fd); epoll_remove d.fd; forget_device p d
  ]

unfoldable pub remove_device_by_fd : ℤ → M (Unit {0})
remove_device_by_fd fd = do
  found ← get_device_by_fd fd
  elim found [
    | none ↦ give tt
    | some p ↦ do d ← load p; epoll_remove d.fd; sys_call (close_fd d.fd); forget_device p d
  ]
