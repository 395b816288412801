-- ===== src/LogicThread/Serving.antt =====
-- The sessions that the logic thread keeps (task/, logic/PlayerManager.cpp, oryx/ClientConnManager.cpp).
use oryxgame.Common.{
  ℕ, suc, ◌≤◌, ◌<◌, ◌≡◌, ◌≢◌, refl, sym, ap, subst, ◌∙◌, ◌⊎◌, inl, inr, true, Option, none, some,
  [], arith, Bool-cases, Option-cases, length,
}
use oryxgame.Common.Int.{ℤ, pos, ltb_ℤ, eqb_ℤ, eqb_ℤ_iff}
use oryxgame.Common.Map.{Map, find}
use oryxgame.Common.Bytes.{Allocator}
use oryxgame.Task.{
  Task, ClientConn, ClientConnPacket, ClientConnOnClose, task_client_conn, task_listener,
  task_client_conn_insert, task_client_conn_delete, task_client_conn_packet, task_send_packet,
  task_client_conn_on_close,
}
use oryxgame.Packet.{Packet, new_packet_from_bytes}
use oryxgame.ThreadManager.{EpollThread}
use oryxgame.ThreadManager.Choice
use oryxgame.ThreadManager.Turns.Started.{not_empty}
use oryxgame.ClientConnManager.{Manager, SessionConn, load}
use oryxgame.ClientConnManager.Ops.{
  conn_manager, session_conn, add_new_conn, remove_session_conn, get_session_by_session_id,
}
use oryxgame.ClientConnManager.Sessions.{IsValid, session_of}
use oryxgame.PlayerManager.{player_manager}
use oryxgame.PlayerManager.Closing.{remove_session_conn-fault}
use oryxgame.TaskCalls.{Logic, add_served, client_conn_on_thread_call, on_close_on_thread_call}
use oryxgame.TaskCalls.Accepting.{Accepted, client_conn_on_thread_call-Accepted}
use oryxgame.MessageHandler.{
  process_message, find_action, run_action, test_action, message_id_is_valid,
}
use oryxgame.MessageHandler.Answering.{Only, only, answer}
use oryxgame.LogicThread.{World, with_logic, packet_on_thread_call, on_thread_call}

-- The tables are consistent, there is a thread, and every session is served by a thread of the map.
pub record IsServing (s : World) : Type 0 where
  pub valid : IsValid s.logic.manager
  pub numbers : Choice.IsValid s.logic.threads
  pub some_thread : s.logic.threads ≢ []
  pub positive :
      (k : ℤ) (t : EpollThread) → find k s.logic.threads ≡ some t → ltb_ℤ (pos 0) t.thread_id ≡ true
  pub served :
      (k : ℤ) (conn : SessionConn)
      → session_of s.logic.manager k ≡ some conn
      → (t : EpollThread) × (find conn.thread_id s.logic.threads ≡ some t)

abbrev pub sessions : World → ℕ
sessions s = length s.logic.manager.session_conn_info

-- The player manager does nothing at the begin of a session.
begins :
    (fuel : ℕ) (clock : ℕ → ℕ) (t : ClientConn) (s : Logic)
    → client_conn_on_thread_call player_manager fuel clock t s
      ≡ client_conn_on_thread_call conn_manager fuel clock t s
unfolding client_conn_on_thread_call add_served add_new_conn player_manager
begins fuel clock t s = refl

Accepted-IsServing :
    (t : ClientConn) (s : World) (logic : Logic)
    → IsServing s
    → Accepted t s.logic logic
    → IsServing (record s { logic = logic })
unfolding session_conn
Accepted-IsServing t s logic w a =
    let still : (k : ℤ)
        → (u : EpollThread) × (find k s.logic.threads ≡ some u)
        → (u : EpollThread) × (find k logic.threads ≡ some u) =
      λ k found. elim (Bool-cases (eqb_ℤ a.thread.thread_id k)) [
        | inl same ↦ (
          _,
          ap (λ i. find i logic.threads) (sym ((eqb_ℤ_iff a.thread.thread_id k).0 same)) ∙ a.handed,
        )
        | inr other ↦ (found.0, a.told k ∙ rw other found.1)
      ] in
    record {
      valid = a.valid;
      numbers = a.numbers;
      some_thread = not_empty a.thread.thread_id _ logic.threads a.handed;
      positive = λ k u here. elim (Bool-cases (eqb_ℤ a.thread.thread_id k)) [
        | inl same ↦
            let id : u.thread_id ≡ a.thread.thread_id = ground (arith, here, a.told k, same) in
            subst (λ i. ltb_ℤ (pos 0) i ≡ true) (sym id)
              (w.positive a.thread.thread_id a.thread a.held)
        | inr other ↦ w.positive k u (ground (arith, here, a.told k, other))
      ];
      served = λ k conn here. elim (Bool-cases (eqb_ℤ a.session k)) [
        | inl same ↦
            let id : conn.thread_id ≡ a.thread.thread_id =
              ground (arith, here, a.sessions k, same) in
            (_, ap (λ i. find i logic.threads) id ∙ a.handed)
        | inr other ↦ still conn.thread_id (
            w.served k conn (
              let old : session_of s.logic.manager k ≡ some conn =
                ground (arith, here, a.sessions k, other) in
              old))
      ];
    }

answer-same :
    (m : Manager) (p : Packet) (session : ℤ)
    → IsValid m
    → (answer only p session (some m)).1 ≡ some m
unfolding test_action get_session_by_session_id load
answer-same m p session v = elim (Bool-cases (message_id_is_valid p.operate_code)) [
  | inr unknown ↦ ground (arith, unknown)
  | inl known ↦ elim (Option-cases (find session m.session_conn_info)) [
    | inl absent ↦ ground (arith, known, absent)
    | inr (q, there) ↦
        let (conn, here, _) = v.live session q there in ground (arith, known, there, here)
  ]
]

processed-same :
    (heap : Allocator) (t : ClientConnPacket) (table : Map (Option Only)) (m : Manager)
    → IsValid m
    → (process_message heap answer (some t) table (some m)).state ≡ some m
unfolding process_message find_action run_action
processed-same heap t table m v = elim (Option-cases (new_packet_from_bytes heap t.packet)) [
  | inl none_there ↦ ground (arith, none_there)
  | inr (p, made) ↦ elim (Option-cases (find p.operate_code table)) [
    | inl unknown ↦ ground (arith, made, unknown)
    | inr (none, null) ↦ ground (arith, made, null)
    | inr (some only, act) ↦ ground (arith, made, act, answer-same m p t.session_id v)
  ]
]

packet-same :
    (heap : Allocator) (t : ClientConnPacket) (s : World)
    → IsValid s.logic.manager
    → packet_on_thread_call heap t s
      ≡ some (record s {
        actions = (process_message heap answer (some t) s.actions (some s.logic.manager)).table;
      })
unfolding packet_on_thread_call
packet-same heap t s v =
    rw (processed-same heap t s.actions s.logic.manager v, packet_on_thread_call) refl

closes_none :
    (t : ClientConnOnClose) (s : Logic)
    → find t.session_id s.manager.session_conn_info ≡ none
    → on_close_on_thread_call player_manager t s ≡ some s
unfolding on_close_on_thread_call remove_session_conn get_session_by_session_id
closes_none t s absent = ground (arith, absent)

closes_some :
    (t : ClientConnOnClose) (s : Logic) (p : ℤ)
    → IsValid s.manager
    → find t.session_id s.manager.session_conn_info ≡ some p
    → on_close_on_thread_call player_manager t s ≡ none
unfolding on_close_on_thread_call
closes_some t s p v there =
    rw (remove_session_conn-fault s.manager t.session_id p v there, on_close_on_thread_call) refl

-- The next task keeps everything well; or it closes a session of the table, and uses it after it was deleted.
abbrev pub Goes : Allocator → ℕ → (ℕ → ℕ) → Task → World → Type 0
Goes heap fuel clock task s =
    ((s' : World) × (on_thread_call heap fuel clock task s ≡ some s')
      × IsServing s'
      × (sessions s' ≤ suc (sessions s)))
    ⊎ ((t : ClientConnOnClose) × (conn : SessionConn) × (task ≡ task_client_conn_on_close t)
        × (session_of s.logic.manager t.session_id ≡ some conn)
        × (on_thread_call heap fuel clock task s ≡ none))

pub goes :
    (heap : Allocator) (fuel : ℕ) (clock : ℕ → ℕ) (task : Task) (s : World)
    → IsServing s
    → sessions s < fuel
    → fuel ≤ 100000
    → Goes heap fuel clock task s
unfolding on_thread_call with_logic session_of
goes heap fuel clock (task_client_conn t) s w few enough =
    let (logic, e, a) =
      client_conn_on_thread_call-Accepted fuel clock t s.logic few enough w.valid w.numbers
        w.some_thread w.positive in
    let called : client_conn_on_thread_call player_manager fuel clock t s.logic ≡ some logic =
      begins fuel clock t s.logic ∙ e in
    inl (
      record s { logic = logic },
      ap (with_logic s) called,
      Accepted-IsServing t s logic w a,
      omega (arith, a.grown),
    )
goes heap fuel clock (task_client_conn_on_close t) s w few enough =
    elim (Option-cases (find t.session_id s.logic.manager.session_conn_info)) [
      | inl absent ↦ inl (s, ap (with_logic s) (closes_none t s.logic absent), w, omega arith)
      | inr (p, there) ↦
          let (conn, here, _) = w.valid.live t.session_id p there in
          inr (
            t,
            conn,
            refl,
            ground (arith, there, here),
            ap (with_logic s) (closes_some t s.logic p w.valid there),
          )
    ]
goes heap fuel clock (task_client_conn_packet t) s w few enough = inl (
  record s {
    actions = (process_message heap answer (some t) s.actions (some s.logic.manager)).table;
  },
  packet-same heap t s w.valid,
  record {
    valid = w.valid;
    numbers = w.numbers;
    some_thread = w.some_thread;
    positive = w.positive;
    served = w.served;
  },
  omega arith,
)
goes heap fuel clock (task_listener t) s w few enough = inl (s, refl, w, omega arith)
goes heap fuel clock (task_client_conn_insert t) s w few enough = inl (s, refl, w, omega arith)
goes heap fuel clock (task_client_conn_delete t) s w few enough = inl (s, refl, w, omega arith)
goes heap fuel clock (task_send_packet t) s w few enough = inl (s, refl, w, omega arith)
