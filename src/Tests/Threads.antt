-- ===== src/Tests/Threads.antt =====
-- The choice of an epoll thread (oryx/threadManager.cpp) among two.
use oryxgame.Common.{◌≡◌, refl, some, [], ◌∷◌, ◌++◌, arith, if◌then◌else◌}
use oryxgame.Common.Int.{ℤ, pos, eqb_ℤ, eqb_ℤ_iff}
use oryxgame.Common.Map.{find}
use oryxgame.Device.{device_client_external}
use oryxgame.Task.{Task, task_client_conn_insert, get_thread_id}
use oryxgame.ThreadManager.{EpollThread, ThreadMap, get_less_pressure_thread, push_task}
use oryxgame.ThreadManager.Choice.{IsValid, IsLeast, push_task-IsLeast}
use oryxgame.ThreadManager.Unordered.{
  SameThreads, pressure_of, least_pressure, least_pressure-unordered,
}
use mathlib.Core.Quot

abbrev threads : ThreadMap
threads =
    (pos 11, record { thread_id = pos 11; pressure = pos 5; queue_thread = [] })
    ∷ (pos 12, record { thread_id = pos 12; pressure = pos 2; queue_thread = [] })
    ∷ []

abbrev insertion : Task
insertion = task_client_conn_insert (record {
  thrd_id = pos 0;
  client_fd = pos 9;
  device_type = device_client_external;
  session_id = pos 42;
  sock_addr = record { sin_family = 2; sin_addr = 0; sin_port = 0 };
})

push_task-IsLeast_example :
    (t : EpollThread) × (threads' : ThreadMap) × (push_task insertion threads
      ≡ (t.thread_id, threads'))
    × (find t.thread_id threads ≡ some t)
    × IsLeast t.pressure threads
    × ((k : ℤ)
        → find k threads' ≡ (
            if eqb_ℤ t.thread_id k
            then some (record t { queue_thread = t.queue_thread ++ (insertion ∷ []) })
            else find k threads))
unfolding get_thread_id find
push_task-IsLeast_example =
    push_task-IsLeast insertion threads (refl, refl, (refl, refl, tt)) (λ e. cc) refl

-- The same threads, met in the other order.
abbrev reversed : ThreadMap
reversed =
    (pos 12, record { thread_id = pos 12; pressure = pos 2; queue_thread = [] })
    ∷ (pos 11, record { thread_id = pos 11; pressure = pos 5; queue_thread = [] })
    ∷ []

threads-IsValid : IsValid threads
unfolding find
threads-IsValid = (refl, refl, (refl, refl, tt))

reversed-IsValid : IsValid reversed
unfolding find
reversed-IsValid = (refl, refl, (refl, refl, tt))

same_threads : SameThreads threads reversed
unfolding find
same_threads k = ground (arith, eqb_ℤ_iff (pos 11) k, eqb_ℤ_iff (pos 12) k)

least_pressure-unordered_example :
    (least_pressure (Quot.mk (threads, threads-IsValid))
      ≡ pressure_of (get_less_pressure_thread (pos 0) threads))
    × (pressure_of (get_less_pressure_thread (pos 0) threads)
        ≡ pressure_of (get_less_pressure_thread (pos 0) reversed))
least_pressure-unordered_example =
    least_pressure-unordered threads reversed threads-IsValid reversed-IsValid same_threads
