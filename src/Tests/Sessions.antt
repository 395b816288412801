-- ===== src/Tests/Sessions.antt =====
-- Sessions and players (oryx/ClientConnManager.cpp, logic/PlayerManager.cpp) in small tables.
use oryxgame.Common.{
  ℕ, ◌≤◌, ◌<◌, ◌≡◌, refl, inl, inr, ◌⊎◌, true, if◌then◌else◌, none, some, [], ◌∷◌, ◌++◌, arith,
  Bool-cases,
}
use oryxgame.Common.Int.{ℤ, pos, ltb_ℤ, eqb_ℤ, eqb_ℤ_iff}
use oryxgame.Common.Map.{find}
use oryxgame.Device.{device_server_external, SockAddr}
use oryxgame.Task.{ClientConn, task_client_conn_delete, new_client_conn_delete}
use oryxgame.ThreadManager.{EpollThread}
use oryxgame.TaskCalls.{Logic, client_conn_on_thread_call}
use oryxgame.TaskCalls.Accepting.{Accepted, client_conn_on_thread_call-Accepted}
use oryxgame.ClientConnManager.{SessionConn, Player, Manager}
use oryxgame.ClientConnManager.Ops.{conn_manager, close_conn}
use oryxgame.ClientConnManager.SessionId.{get_rand_new_session, get_rand_new_session-fresh}
use oryxgame.ClientConnManager.Sessions.{IsValid, session_of}
use oryxgame.ClientConnManager.Closing.{close_conn_lem}

abbrev pub address : SockAddr
address = record { sin_family = 2; sin_addr = 0; sin_port = 0 }

abbrev pub conn_of : ℤ → SessionConn
conn_of player = record {
  thread_id = pos 2;
  session_id = pos 42;
  player_id = player;
  device_type = device_server_external;
  sock_addr = address;
}

abbrev pub known_player : Player
known_player = record { player_id = pos 9; name = [] }

-- One session, on which `player` is marked, and one known player, number 9.
abbrev pub tables : ℤ → Manager
tables player = record {
  objects = (pos 0, conn_of player) ∷ [];
  next_object = 1;
  session_conn_info = (pos 42, pos 0) ∷ [];
  auto_incri_session_id = 3;
  player_all = (pos 9, known_player) ∷ [];
  player_dirty = [];
  player_online = [];
  auto_incr_player_id = pos 1001;
  pushed = [];
}

pub tables-IsValid : IsValid (tables (pos 0))
unfolding find
tables-IsValid = record {
  live = λ session p e. elim (Bool-cases (eqb_ℤ (pos 42) session)) [
    | inl same ↦ (conn_of (pos 0), ground (arith, e, same), (eqb_ℤ_iff (pos 42) session).0 same)
    | inr other ↦ absurd (ground (arith, e, other))
  ];
  unused = λ n h. ground arith;
}

get_rand_new_session-fresh_example :
    (id : ℤ) × (c : ℕ) × (get_rand_new_session 2 (λ i. 1700000000) (tables (pos 0))
      ≡ some (id, record (tables (pos 0)) { auto_incri_session_id = c }))
    × (find id (tables (pos 0)).session_conn_info ≡ none)
    × (0 < c)
    × (c ≤ 100000)
get_rand_new_session-fresh_example =
    get_rand_new_session-fresh 2 (λ i. 1700000000) (tables (pos 0)) (omega arith) (omega arith)

close_conn_lem_example :
    ((find (pos 42) (tables (pos 0)).session_conn_info ≡ none)
      × (close_conn conn_manager (pos 42) (tables (pos 0)) ≡ some (tt, tables (pos 0))))
    ⊎ ((conn : SessionConn) × (m' : Manager) × (session_of (tables (pos 0)) (pos 42) ≡ some conn)
        × (close_conn conn_manager (pos 42) (tables (pos 0)) ≡ some (tt, m'))
        × IsValid m'
        × (m'.pushed
            ≡ [] ++ (task_client_conn_delete (new_client_conn_delete conn.thread_id (pos 42)) ∷ []))
        × ((k : ℤ)
            → session_of m' k ≡ (if eqb_ℤ (pos 42) k then none else session_of (tables (pos 0)) k)))
close_conn_lem_example = close_conn_lem (tables (pos 0)) (pos 42) tables-IsValid

abbrev logic : Logic
logic = record {
  manager = tables (pos 0);
  threads = (pos 11, record { thread_id = pos 11; pressure = pos 5; queue_thread = [] }) ∷ [];
}

abbrev pub newcomer : ClientConn
newcomer = record {
  thrd_id = pos 11;
  client_fd = pos 9;
  device_type = device_server_external;
  sock_addr = address;
}

positive_threads :
    (k : ℤ) (thread : EpollThread)
    → find k logic.threads ≡ some thread
    → ltb_ℤ (pos 0) thread.thread_id ≡ true
unfolding find
positive_threads k thread e = elim (Bool-cases (eqb_ℤ (pos 11) k)) [
  | inl same ↦ ground (arith, e, same)
  | inr other ↦ absurd (ground (arith, e, other))
]

client_conn_on_thread_call-Accepted_example :
    (s' : Logic) × (client_conn_on_thread_call conn_manager 2 (λ i. 1700000000) newcomer logic
      ≡ some s')
    × Accepted newcomer logic s'
unfolding find
client_conn_on_thread_call-Accepted_example =
    client_conn_on_thread_call-Accepted 2 (λ i. 1700000000) newcomer logic (omega arith)
      (omega arith) tables-IsValid (refl, refl, tt) (λ e. cc) positive_threads
