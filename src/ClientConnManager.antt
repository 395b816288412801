-- ===== src/ClientConnManager.antt =====
-- oryx/ClientConnManager.h and oryx/ClientConnManager.cpp: the logic thread's table of sessions, with
-- what logic/PlayerManager.h adds to its state. Sessions are objects that several tables point to, so
-- the state has a heap of them; the state-passing functions return `none` on an access to an object
-- that was deleted.
pub mod State
pub mod Ops
pub mod SessionId
pub mod Sessions
pub mod Closing
pub use State.{
  SessionConn, Player, Manager, Address, M, ◌>>=◌, ◌>>◌, update_manager, get_manager, give,
}
unfoldable pub use State.{load, store, push_task, new_session, delete_session}
