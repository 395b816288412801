-- ===== src/LogicThread/Lasting.antt =====
-- The logic thread over any number of tasks (task/, logic/PlayerManager.cpp, oryx/ClientConnManager.cpp).
use oryxgame.Common.{
  ℕ, ◌+◌, ◌≤◌, ◌<◌, ◌≡◌, refl, ap, ◌∙◌, ◌⊎◌, inl, inr, none, some, List, [], ◌∷◌, ◌++◌, arith,
  length,
}
use oryxgame.Common.Bytes.{Allocator}
use oryxgame.Task.{ClientConnOnClose, task_client_conn_on_close}
use oryxgame.ClientConnManager.{SessionConn}
use oryxgame.ClientConnManager.Sessions.{session_of}
use oryxgame.LogicThread.{World, Call, on_thread_call, on_thread_calls}
use oryxgame.LogicThread.Serving.{IsServing, sessions, goes}

module _ (heap : Allocator) (fuel : ℕ) where
  -- The tasks up to the first that closes a session of the table went well; that one uses the session after
  -- it was deleted.
  pub record Broken (calls : List Call) (s : World) : Type 0 where
    pub before : List Call
    pub after : List Call
    pub closing : ClientConnOnClose
    pub clock : ℕ → ℕ
    pub world : World
    pub conn : SessionConn
    pub parts : calls ≡ before ++ ((task_client_conn_on_close closing, clock) ∷ after)
    pub went_well : on_thread_calls heap fuel before s ≡ some world
    pub serving : IsServing world
    pub there : session_of world.logic.manager closing.session_id ≡ some conn
    pub fault : on_thread_calls heap fuel calls s ≡ none

  one_call :
      (c : Call) (calls : List Call) (s s' : World)
      → on_thread_call heap fuel c.1 c.0 s ≡ some s'
      → on_thread_calls heap fuel (c ∷ calls) s ≡ on_thread_calls heap fuel calls s'
  unfolding on_thread_calls
  one_call (t, clock) calls s s' e = rw (e, on_thread_calls) refl

  no_call :
      (c : Call) (calls : List Call) (s : World)
      → on_thread_call heap fuel c.1 c.0 s ≡ none
      → on_thread_calls heap fuel (c ∷ calls) s ≡ none
  unfolding on_thread_calls
  no_call (t, clock) calls s e = rw (e, on_thread_calls) refl

  later-Broken :
      (c : Call) (calls : List Call) (s s' : World)
      → on_thread_call heap fuel c.1 c.0 s ≡ some s'
      → Broken calls s'
      → Broken (c ∷ calls) s
  later-Broken c calls s s' e r = record {
    before = c ∷ r.before;
    after = r.after;
    closing = r.closing;
    clock = r.clock;
    world = r.world;
    conn = r.conn;
    parts = ap (λ rest. c ∷ rest) r.parts;
    went_well = one_call c r.before s s' e ∙ r.went_well;
    serving = r.serving;
    there = r.there;
    fault = one_call c calls s s' e ∙ r.fault;
  }

  -- The logic thread runs any tasks, on consistent tables with at least one epoll thread, each number of a
  -- thread once and positive, every session served by a thread of the map, and fewer than 100000 sessions
  -- and tasks together. Then either no deleted session is used and all of this still holds at the end, or
  -- it holds up to the first task that closes a session of the table, which uses this session after it was
  -- deleted.
  pub on_thread_calls-IsServing :
      (calls : List Call) (s : World)
      → IsServing s
      → sessions s + length calls < fuel
      → fuel ≤ 100000
      → ((s' : World) × (on_thread_calls heap fuel calls s ≡ some s') × IsServing s')
        ⊎ Broken calls s
  unfolding on_thread_calls
  on_thread_calls-IsServing [] s w few enough = inl (s, refl, w)
  on_thread_calls-IsServing ((task, clock) ∷ calls) s w few enough =
      elim (goes heap fuel clock task s w (omega (arith, few)) enough) [
        | inl (s', e, w', grown) ↦
            elim (on_thread_calls-IsServing calls s' w' (omega (arith, few, grown)) enough) [
              | inl (end, run, well) ↦ inl (end, one_call (task, clock) calls s s' e ∙ run, well)
              | inr broken ↦ inr (later-Broken (task, clock) calls s s' e broken)
            ]
        | inr (t, conn, closes, there, e) ↦ inr (record {
          before = [];
          after = calls;
          closing = t;
          clock = clock;
          world = s;
          conn = conn;
          parts = ap (λ x. (x, clock) ∷ calls) closes;
          went_well = refl;
          serving = w;
          there = there;
          fault = no_call (task, clock) calls s e;
        })
      ]
