-- ===== src/TaskCalls/Accepting.antt =====
-- The session and the thread of an accepted connection (task/task_clientConn.cpp).
use oryxgame.Common.{
  ℕ, ◌≤◌, ◌<◌, suc, ◌≡◌, ◌≢◌, refl, ap, subst, ◌∙◌, inl, inr, true, none, some, [], ◌∷◌, ◌++◌,
  arith, if◌then◌else◌, length,
}
use oryxgame.Common.Int.{ℤ, pos, ltb_ℤ, eqb_ℤ, eqb_ℤ_refl}
use oryxgame.Common.Map.{find}
use oryxgame.Task.{ClientConn, task_client_conn_insert, new_client_conn_insert, get_thread_id}
use oryxgame.ThreadManager.{EpollThread, ThreadMap, push_task}
use oryxgame.ThreadManager.Choice
use oryxgame.ThreadManager.Choice.{IsLeast, push_task-IsLeast}
use oryxgame.ThreadManager.Turns.Started.{push_task-IsValid}
use oryxgame.ClientConnManager.{Manager}
use oryxgame.ClientConnManager.Ops.{conn_manager, session_conn, add_new_conn}
use oryxgame.ClientConnManager.SessionId.{get_rand_new_session, get_rand_new_session-fresh}
use oryxgame.ClientConnManager.Sessions.{IsValid, session_of, add_new_conn_lem}
use oryxgame.TaskCalls.{Logic, insertion, add_served, client_conn_on_thread_call}

names_none :
    (t : ClientConn) (session : ℤ)
    → get_thread_id (task_client_conn_insert (insertion t session)) ≡ pos 0
unfolding get_thread_id insertion new_client_conn_insert
names_none t session = refl

-- What the acceptance of a connection leaves.
pub record Accepted (t : ClientConn) (s s' : Logic) : Type 0 where
  pub session : ℤ
  pub thread : EpollThread
  pub is_new : find session s.manager.session_conn_info ≡ none
  pub held : find thread.thread_id s.threads ≡ some thread
  pub least : IsLeast thread.pressure s.threads
  pub handed :
      find thread.thread_id s'.threads
      ≡ some (record thread {
        queue_thread = thread.queue_thread ++ (task_client_conn_insert (insertion t session) ∷ []);
      })
  pub valid : IsValid s'.manager
  pub told :
      (k : ℤ)
      → find k s'.threads ≡ (
          if eqb_ℤ thread.thread_id k
          then some (record thread {
            queue_thread =
                thread.queue_thread ++ (task_client_conn_insert (insertion t session) ∷ []);
          })
          else find k s.threads)
  pub numbers : Choice.IsValid s'.threads
  pub grown : length s'.manager.session_conn_info ≡ suc (length s.manager.session_conn_info)
  pub sessions :
      (k : ℤ)
      → session_of s'.manager k ≡ (
          if eqb_ℤ session k
          then some (session_conn thread.thread_id session t.device_type t.sock_addr)
          else session_of s.manager k)

on_thread_call-add_served :
    (fuel : ℕ) (clock : ℕ → ℕ) (t : ClientConn) (s : Logic) {session thread : ℤ} {m : Manager}
    {threads : ThreadMap}
    → get_rand_new_session fuel clock s.manager ≡ some (session, m)
    → push_task (task_client_conn_insert (insertion t session)) s.threads ≡ (thread, threads)
    → client_conn_on_thread_call conn_manager fuel clock t s
      ≡ add_served conn_manager t thread session (record { manager = m; threads = threads })
unfolding client_conn_on_thread_call
on_thread_call-add_served fuel clock t s e f = ground (arith, e, f)

served :
    (t : ClientConn) (thread session : ℤ) (s : Logic) (m : Manager)
    → ltb_ℤ (pos 0) thread ≡ true
    → add_new_conn conn_manager thread session t.device_type t.sock_addr s.manager ≡ some (true, m)
    → add_served conn_manager t thread session s ≡ some (record s { manager = m })
unfolding add_served
served t thread session s m positive e = ground (arith, positive, e)

-- A connection that was accepted, with fewer than 100000 sessions, at least one epoll thread, a
-- consistent table of sessions, a thread map with each number once, and positive numbers of threads:
-- it gets a session that was not in use, one task to insert it goes to a thread than which none has
-- less pressure and to no other, and the table of sessions gets exactly this session, served by this
-- thread. The table stays consistent, and so does the thread map.
pub client_conn_on_thread_call-Accepted :
    (fuel : ℕ) (clock : ℕ → ℕ) (t : ClientConn) (s : Logic)
    → length s.manager.session_conn_info < fuel
    → fuel ≤ 100000
    → IsValid s.manager
    → Choice.IsValid s.threads
    → s.threads ≢ []
    → ((k : ℤ) (thread : EpollThread)
        → find k s.threads ≡ some thread
        → ltb_ℤ (pos 0) thread.thread_id ≡ true)
    → (s' : Logic) × (client_conn_on_thread_call conn_manager fuel clock t s ≡ some s')
      × Accepted t s s'
unfolding session_of
client_conn_on_thread_call-Accepted fuel clock t s few h v vt some_thread positive =
    let (session, c, e, free, _, _) = get_rand_new_session-fresh fuel clock s.manager few h in
    let m = record s.manager { auto_incri_session_id = c } in
    let vm : IsValid m = record { live = v.live; unused = v.unused } in
    let (thread, threads, pushed, held, least, after) =
      push_task-IsLeast (task_client_conn_insert (insertion t session)) s.threads vt some_thread
        (names_none t session) in
    elim (add_new_conn_lem m thread.thread_id session t.device_type t.sock_addr vm) [
      | inl (p, used, _) ↦ absurd (ground (arith, used, free))
      | inr (m', added, valid, sessions, grown) ↦ (
        record { manager = m'; threads = threads },
        on_thread_call-add_served fuel clock t s e pushed
            ∙ served t thread.thread_id session (record { manager = m; threads = threads }) m'
                (positive thread.thread_id thread held) added,
        record {
          session = session;
          thread = thread;
          is_new = free;
          held = held;
          least = least;
          handed = after thread.thread_id ∙ rw (eqb_ℤ_refl thread.thread_id);
          told = after;
          numbers =
              subst Choice.IsValid (ap (λ r. r.1) pushed)
                (push_task-IsValid (task_client_conn_insert (insertion t session)) s.threads vt);
          grown = grown;
          valid = valid;
          sessions = sessions;
        },
      )
    ]
