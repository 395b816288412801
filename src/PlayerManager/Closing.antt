-- ===== src/PlayerManager/Closing.antt =====
-- `removeSessionConn` with the player manager's `onSessionClose` (oryx/ClientConnManager.cpp).
use oryxgame.Common.{◌≡◌, none, some, arith}
use oryxgame.Common.Int.{ℤ, eqb_ℤ_refl}
use oryxgame.Common.Map.{find, find-erase}
use oryxgame.ClientConnManager.{Manager, Address, load, delete_session}
use oryxgame.ClientConnManager.Ops.{remove_session_conn, get_session_by_session_id}
use oryxgame.ClientConnManager.Sessions.{IsValid}
use oryxgame.PlayerManager.{on_session_close, player_manager}

-- On consistent tables, `removeSessionConn` with the player manager's `onSessionClose` uses a session
-- that was deleted, whenever the session exists.
pub remove_session_conn-fault :
    (m : Manager) (session : ℤ) (p : Address)
    → IsValid m
    → find session m.session_conn_info ≡ some p
    → remove_session_conn player_manager session m ≡ none
unfolding remove_session_conn get_session_by_session_id player_manager on_session_close load
    delete_session
remove_session_conn-fault m session p v e =
    let (conn, here, _) = v.live session p e in
    ground (arith, e, here, find-erase p p m.objects, eqb_ℤ_refl p)
