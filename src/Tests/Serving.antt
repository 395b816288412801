-- ===== src/Tests/Serving.antt =====
-- Tasks of the logic thread (task/): a new connection, a heart-beat, and the end of a connection.
use oryxgame.Common.{◌≡◌, ◌⊎◌, refl, inl, inr, none, some, List, [], ◌∷◌, arith, Bool-cases}
use oryxgame.Common.Int.{pos, eqb_ℤ}
use oryxgame.Common.Map.{find}
use oryxgame.Task.{task_client_conn, task_client_conn_packet, task_client_conn_on_close}
use oryxgame.Packet.{new_packet_with}
use oryxgame.Packet.Wire.{wire}
use oryxgame.ThreadManager.{EpollThread}
use oryxgame.ClientConnManager.Sessions.{session_of}
use oryxgame.MessageHandler.{msgid_heart_beat, init_test_action}
use oryxgame.MessageHandler.Answering.{only}
use oryxgame.LogicThread.{World, Call, on_thread_calls}
use oryxgame.LogicThread.Serving.{IsServing}
use oryxgame.LogicThread.Lasting.{Broken, on_thread_calls-IsServing}
use oryxgame.Tests.Sessions.{tables, tables-IsValid, newcomer}
use oryxgame.Tests.Link.{memory}

abbrev thread : EpollThread
thread = record { thread_id = pos 2; pressure = pos 0; queue_thread = [] }

abbrev world : World
world = record {
  logic = record { manager = tables (pos 0); threads = (pos 2, thread) ∷ [] };
  actions = init_test_action only [];
}

world-IsServing : IsServing world
unfolding find session_of
world-IsServing = record {
  valid = tables-IsValid;
  numbers = (refl, refl, tt);
  some_thread = λ e. cc;
  positive = λ k t e. elim (Bool-cases (eqb_ℤ (pos 2) k)) [
    | inl same ↦ ground (arith, e, same)
    | inr other ↦ absurd (ground (arith, e, other))
  ];
  served = λ k conn e. elim (Bool-cases (eqb_ℤ (pos 42) k)) [
    | inl same ↦ (thread, ground (arith, e, same))
    | inr other ↦ absurd (ground (arith, e, other))
  ];
}

abbrev calls : List Call
calls =
    (task_client_conn newcomer, λ i. 1700000000)
    ∷ (
      task_client_conn_packet (record {
        thrd_id = pos 2;
        session_id = pos 42;
        packet = some (wire memory (new_packet_with memory msgid_heart_beat (pos 0) none));
      }),
      λ i. 1700000000,
    )
    ∷ (task_client_conn_on_close (record { thrd_id = pos 2; session_id = pos 42 }), λ i. 1700000001)
    ∷ []

on_thread_calls-IsServing_example :
    ((s' : World) × (on_thread_calls memory 5 calls world ≡ some s') × IsServing s')
    ⊎ Broken memory 5 calls world
on_thread_calls-IsServing_example =
    on_thread_calls-IsServing memory 5 calls world world-IsServing (omega arith) (omega arith)
