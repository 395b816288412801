-- ===== src/ThreadManager/Turns/Started.antt =====
-- The threads of `ThreadManager::init`, `addThread_Epoll` and `push_task` (oryx/threadManager.cpp).
use oryxgame.Common.{
  ◌≡◌, ◌≢◌, refl, sym, ap, ◌∙◌, inl, inr, some, List, [], ◌∷◌, arith, Bool-cases, Option-cases,
}
use oryxgame.Common.Int.{ℤ, eqb_ℤ, eqb_ℤ_iff, eqb_ℤ_refl}
use oryxgame.Common.Map.{find, insert, find-insert}
use oryxgame.Task.{Task, get_thread_id}
use oryxgame.ThreadManager.{
  EpollThread, ThreadMap, add_thread, get_less_pressure_thread, push_task_thread, push_task,
}
use oryxgame.ThreadManager.Choice.{IsValid}
use oryxgame.ThreadManager.Turns.{init}

pub insert-IsValid :
    (t : EpollThread) (threads : ThreadMap)
    → IsValid threads
    → IsValid (insert t.thread_id t threads)
unfolding insert find
insert-IsValid t [] v = (refl, refl, tt)
insert-IsValid t ((k, u) ∷ threads) (own, fresh, v) = elim (Bool-cases (eqb_ℤ k t.thread_id)) [
  | inl same ↦
      rw same (refl, ap (λ j. find j threads) (sym ((eqb_ℤ_iff k t.thread_id).0 same)) ∙ fresh, v)
  | inr other ↦ rw other (
    own,
    ground (
      arith,
      find-insert t.thread_id k t threads,
      eqb_ℤ_iff t.thread_id k,
      eqb_ℤ_iff k t.thread_id,
      other,
      fresh,
    ),
    insert-IsValid t threads v,
  )
]

pub not_empty :
    (k : ℤ) (t : EpollThread) (threads : ThreadMap) → find k threads ≡ some t → threads ≢ []
unfolding find
not_empty k t [] e none_there = absurd (ground (arith, e))
not_empty k t (u ∷ threads) e none_there = absurd (cc none_there)

insert-some : (t : EpollThread) (threads : ThreadMap) → insert t.thread_id t threads ≢ []
insert-some t threads =
    not_empty t.thread_id t (insert t.thread_id t threads)
      (find-insert t.thread_id t.thread_id t threads ∙ rw (eqb_ℤ_refl t.thread_id) refl)

pub push_task-IsValid :
    (task : Task) (threads : ThreadMap) → IsValid threads → IsValid (push_task task threads).1
unfolding push_task push_task_thread
push_task-IsValid task threads v =
    elim (Option-cases (get_less_pressure_thread (get_thread_id task) threads)) [
      | inl nobody ↦ rw (nobody, push_task) v
      | inr (t, chosen) ↦
          rw (chosen, push_task) (insert-IsValid (push_task_thread task t) threads v)
    ]

add_thread-IsValid :
    (t : EpollThread) (threads : ThreadMap)
    → IsValid threads
    → IsValid (add_thread (some t) threads).1 × ((add_thread (some t) threads).1 ≢ [])
unfolding add_thread
add_thread-IsValid t threads v = elim (Option-cases (find t.thread_id threads)) [
  | inl free ↦ rw (free, add_thread) (insert-IsValid t threads v, insert-some t threads)
  | inr (u, used) ↦ rw (used, add_thread) (v, not_empty t.thread_id u threads used)
]

-- `ThreadManager::init` that has started some threads leaves a valid map, and not an empty one.
pub init-IsValid :
    (t : EpollThread) (started : List EpollThread) (threads : ThreadMap)
    → IsValid threads
    → IsValid (init (t ∷ started) threads) × (init (t ∷ started) threads ≢ [])
unfolding init
init-IsValid t [] threads v = add_thread-IsValid t threads v
init-IsValid t (u ∷ started) threads v =
    init-IsValid u started (add_thread (some t) threads).1 (add_thread-IsValid t threads v).0
