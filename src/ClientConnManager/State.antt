-- ===== src/ClientConnManager/State.antt =====
-- The state of the session tables (oryx/ClientConnManager.h, logic/PlayerManager.h) and the monad over it.
use oryxgame.Common.{ℕ, ◌+◌, Option, none, some, List, [], ◌∷◌, ◌++◌}
use oryxgame.Common.Int.{ℤ, pos}
use oryxgame.Common.Map.{Map, find, insert, erase}
use oryxgame.Common.Bytes.{Bytes}
use oryxgame.Device.{DeviceType, SockAddr}
use oryxgame.Task.{Task}

-- `struct SessionConn`
pub record SessionConn : Type 0 where
  pub thread_id : ℤ
  pub session_id : ℤ
  pub player_id : ℤ
  pub device_type : DeviceType
  pub sock_addr : SockAddr

-- `class Player` (logic/Player.h)
pub record Player : Type 0 where
  pub player_id : ℤ
  pub name : Bytes

-- What a `SessionConn *` that is not null holds.
abbrev pub Address : Type 0
Address = ℤ

-- `ClientConnManager` and `PlayerManager`, with the heap of sessions; `pushed` are the tasks given to
-- `ThreadManager::push_task`, oldest first. The counter of sessions stays between 1 and 100000.
pub record Manager : Type 0 where
  pub objects : Map SessionConn
  pub next_object : ℕ
  pub session_conn_info : Map Address
  pub auto_incri_session_id : ℕ
  pub player_all : Map Player
  pub player_dirty : Map Player
  pub player_online : Map (Option Address)
  pub auto_incr_player_id : ℤ
  pub pushed : List Task

abbrev pub M : Type 0 → Type 0
M A = Manager → Option (A × Manager)

infixl 5 ◌>>=◌ ◌>>◌
abbrev pub ◌>>=◌ : {A B : Type 0} → M A → (A → M B) → M B
◌>>=◌ m f s = elim (m s) [ none ↦ none | some (a, s') ↦ f a s' ]

abbrev pub ◌>>◌ : {B : Type 0} → M (Unit {0}) → M B → M B
m >> k = m >>= λ _. k

abbrev pub give : {A : Type 0} → A → M A
give a s = some (a, s)

abbrev pub get_manager : M Manager
get_manager s = some (s, s)

abbrev pub update_manager : (Manager → Manager) → M (Unit {0})
update_manager f s = some (tt, f s)

-- `*p`, for an object that was not deleted.
unfoldable pub load : Address → M SessionConn
load p s = elim (find p s.objects) [ none ↦ none | some conn ↦ some (conn, s) ]

unfoldable pub store : Address → SessionConn → M (Unit {0})
store p conn s = elim (find p s.objects) [
  | none ↦ none
  | some _ ↦ some (tt, record s { objects = insert p conn s.objects })
]

unfoldable pub push_task : Task → M (Unit {0})
push_task t s = some (tt, record s { pushed = s.pushed ++ (t ∷ []) })

-- `new SessionConn(…)`
unfoldable pub new_session : SessionConn → M Address
new_session conn s =
    let p = pos s.next_object in
    some (p, record s { objects = insert p conn s.objects; next_object = s.next_object + 1 })

-- `delete`
unfoldable pub delete_session : Address → M (Unit {0})
delete_session p s = elim (find p s.objects) [
  | none ↦ none
  | some _ ↦ some (tt, record s { objects = erase p s.objects })
]
