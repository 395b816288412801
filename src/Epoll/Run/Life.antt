-- ===== src/Epoll/Run/Life.antt =====
-- What holds of an epoll thread at every time of its life (oryx/EpollHandler.cpp).
use oryxgame.Common.{
  ℕ, suc, ◌≡◌, refl, sym, subst, ap, ◌∙◌, none, some, List, [], ◌∷◌, arith, ◌==◌, length, take,
}
use oryxgame.Common.Int.{ℤ, pos, negsuc, ◌+ℤ◌, ltb_ℤ}
use oryxgame.Common.Map.{find}
use oryxgame.Common.Sizes.{IsDistinct}
use oryxgame.Task.{Task}
use oryxgame.SpscQueue.{BoundedQueue, Spsc}
use oryxgame.Thread.{Thread, update_thread}
use oryxgame.Thread.Handling.{run_tasks, complete_tasks}
use oryxgame.Thread.Rounds.{update_thread-Rounded}
use oryxgame.Epoll.State.{Handler, M}
use oryxgame.Epoll.Table.{TablesAgree}
use oryxgame.Epoll.Balance.{get_device_num, Balanced, sub_ℕ_eq, eq_sub_ℕ, sub_ℕ_parts}
use oryxgame.Epoll.Events.{dotask}
use oryxgame.Epoll.Events.Safety.{IsSafe, give-IsSafe, bind-IsSafe}
use oryxgame.Epoll.Events.Rounds.{events-IsSafe, if-IsSafe}
use oryxgame.Epoll.Events.Tasks.{dotask-IsSafe}
use oryxgame.Epoll.Run.{
  max_events, epoll_handler, Wait, wait_failed, waited, wait_and_handle, epoll_run, Answers,
  push_tasks, emptied, Serving, serve_task, finish_task, events_round, thread_round, thread_rounds,
}

wait_and_handle-IsSafe : (max_event : ℤ) (wait : Wait) → IsSafe (wait_and_handle max_event wait)
unfolding wait_and_handle
wait_and_handle-IsSafe max_event wait_failed = give-IsSafe (negsuc 0)
wait_and_handle-IsSafe max_event (waited events) =
    if-IsSafe (length events == 0) _ _ (give-IsSafe (pos 0))
      (bind-IsSafe _ _ (events-IsSafe (take max_events events)) (λ _. give-IsSafe _))

pub epoll_run-IsSafe : (max_event : ℤ) (wait : Wait) → IsSafe (epoll_run max_event wait)
unfolding epoll_run
epoll_run-IsSafe max_event wait =
    if-IsSafe (ltb_ℤ (pos 0) max_event) _ _ (wait_and_handle-IsSafe _ wait) (give-IsSafe (negsuc 0))

-- The tables agree, and the pressure exceeds `memory` by the number of devices.
pub record IsWell (memory : ℤ) (h : Handler) : Type 0 where
  pub agree : TablesAgree h
  pub distinct : IsDistinct h.map_device_info
  pub pressure : h.pressure ≡ memory +ℤ pos (get_device_num h)

-- No deleted device was used, and the handler is well.
abbrev pub Lives : ℤ → Serving → Type 0
Lives memory s = (h : Handler) × (n : ℕ) × (s ≡ some (h, n)) × IsWell memory h

counted : (p p' a : ℤ) (n m : ℕ) → p' +ℤ pos n ≡ p +ℤ pos m → p ≡ a +ℤ pos n → p' ≡ a +ℤ pos m
unfolding ◌+ℤ◌
counted p p' a n m e start =
    sub_ℕ_parts p'
    ∙ eq_sub_ℕ _ _ _ _
        (omega (arith, sub_ℕ_eq _ _ _ _ e, sub_ℕ_eq _ _ _ _ (sym (sub_ℕ_parts p) ∙ start)))

still-IsWell :
    (memory : ℤ) (h h' : Handler)
    → IsWell memory h
    → TablesAgree h'
    → Balanced h h'
    → IsWell memory h'
unfolding get_device_num
still-IsWell memory h h' w v k =
    let (distinct, balance) = k w.distinct in
    record {
      agree = v;
      distinct = distinct;
      pressure =
          counted h.pressure h'.pressure memory (length h.map_device_info)
            (length h'.map_device_info) balance w.pressure;
    }

emptied-IsWell : (memory : ℤ) (h : Handler) → IsWell memory h → IsWell memory (emptied h)
unfolding get_device_num
emptied-IsWell memory h w = record {
  agree = record {
    by_fd = w.agree.by_fd;
    by_session = w.agree.by_session;
    unused = w.agree.unused;
  };
  distinct = w.distinct;
  pressure = w.pressure;
}

-- What is safe may be run on a handler that is well.
pub runs-IsWell :
    {A : Type 0} (memory : ℤ) (m : M A) (h : Handler)
    → IsSafe m
    → IsWell memory h
    → (a : A) × (h' : Handler) × (m h ≡ some (a, h')) × IsWell memory h'
unfolding IsSafe
runs-IsWell memory m h safe w =
    let (a, h', done, v, k) = safe h w.agree in (a, h', done, still-IsWell memory h h' w v k)

module _ (b : BoundedQueue Task) (answers : ℕ → Answers) (memory : ℤ) where
  serve_task-Lives :
      (t : Task) (s : Serving) (q : Spsc Task b.Queue)
      → Lives memory s
      → Lives memory (serve_task b answers t (s, q)).1.0
  unfolding serve_task
  serve_task-Lives t s q (h, n, serving, w) =
      let a = answers n in
      let (t', h', done, w') =
        runs-IsWell memory (dotask a.registered a.raw a.sends t) h
          (dotask-IsSafe a.registered a.raw a.sends t) w in
      rw serving (emptied h', suc n, rw (done, serve_task) refl, emptied-IsWell memory h' w')

  run_tasks-Lives :
      (tasks : List Task) (s : Serving × Spsc Task b.Queue)
      → Lives memory s.0
      → Lives memory (run_tasks b (serve_task b answers) (finish_task b answers) tasks s).1.0
  run_tasks-Lives [] s w = w
  run_tasks-Lives (t ∷ tasks) s w = run_tasks-Lives tasks _ (serve_task-Lives t s.0 s.1 w)

  pub complete_tasks_lem :
      (tasks : List Task) (s : Serving × Spsc Task b.Queue)
      → complete_tasks b (serve_task b answers) (finish_task b answers) tasks s ≡ s
  unfolding finish_task
  complete_tasks_lem [] s = refl
  complete_tasks_lem (t ∷ tasks) s = complete_tasks_lem tasks s

  update_thread-Lives :
      (t : Thread Task b.Queue) (s : Serving)
      → Lives memory s
      → Lives memory (update_thread b (serve_task b answers) (finish_task b answers) t s).state
  update_thread-Lives t s w =
      let r = update_thread-Rounded b (serve_task b answers) (finish_task b answers) t s in
      subst (Lives memory)
        (sym (
          r.state
          ∙ ap (λ s'. (run_tasks b (serve_task b answers) (finish_task b answers) r.ran s').1.0)
              (complete_tasks_lem r.completed (s, t.queue_main))))
        (run_tasks-Lives r.ran (s, t.queue_main) w)

  pub events_round_lem :
      (wait : Wait) (h : Handler) (q : Spsc Task b.Queue)
      → IsWell memory h
      → (events : ℤ) × (h' : Handler) × (epoll_run (pos max_events) wait h ≡ some (events, h'))
        × IsWell memory (emptied h')
        × (events_round b answers wait h q
            ≡ some (events, emptied h', push_tasks b q h'.main_queue))
  unfolding events_round
  events_round_lem wait h q w =
      let (events, h', done, w') =
        runs-IsWell memory (epoll_run (pos max_events) wait) h
          (epoll_run-IsSafe (pos max_events) wait) w in
      (events, h', done, emptied-IsWell memory h' w', rw (done, events_round) refl)

  thread_round-Lives :
      (wait : Wait) (t : Thread Task b.Queue) (h : Handler) (n : ℕ)
      → IsWell memory h
      → Lives memory (thread_round b answers wait t (h, n)).2
  unfolding thread_round
  thread_round-Lives wait t h n w =
      let (events, h', done, w', e) = events_round_lem wait h t.queue_main w in
      rw (e, thread_round)
        (update_thread-Lives (record t { queue_main = push_tasks b t.queue_main h'.main_queue })
          (some (emptied h', n)) (emptied h', n, refl, w'))

  thread_rounds-Lives :
      (rounds : List (Wait × (Thread Task b.Queue → Thread Task b.Queue))) (t : Thread Task b.Queue)
      (s : Serving)
      → Lives memory s
      → Lives memory (thread_rounds b answers rounds t s).1
  unfolding thread_rounds
  thread_rounds-Lives [] t s w = w
  thread_rounds-Lives ((wait, logic) ∷ rounds) t none (h, n, serving, w) = absurd (cc serving)
  thread_rounds-Lives ((wait, logic) ∷ rounds) t (some (h, n)) (h', n', serving, w) =
      let same : h' ≡ h = ground (arith, serving) in
      thread_rounds-Lives rounds _ _
        (thread_round-Lives wait (logic t) h n (subst (IsWell memory) same w))

  pub epoll_handler-IsWell : IsWell memory (epoll_handler memory)
  unfolding epoll_handler get_device_num IsDistinct find ◌+ℤ◌
  epoll_handler-IsWell = record {
    agree = record {
      by_fd = λ fd p e. absurd (ground (arith, e));
      by_session = λ session p e. absurd (ground (arith, e));
      unused = λ n k. refl;
    };
    distinct = tt;
    pressure = ground arith;
  }

  -- The epoll thread from its constructor on, through any number of rounds of `epoll_thread_run`, whatever
  -- events epoll reports, whatever tasks the logic thread has queued before each round and whatever the
  -- system calls return: it never uses a device that was deleted, its two tables name the same devices, and
  -- its pressure is the number of its devices more than what `m_pressure` held at first.
  pub thread_rounds-IsWell :
      (rounds : List (Wait × (Thread Task b.Queue → Thread Task b.Queue))) (t : Thread Task b.Queue)
      → (h : Handler) × (n : ℕ) × ((thread_rounds b answers rounds t
            (some (epoll_handler memory, 0))).1
          ≡ some (h, n))
        × IsWell memory h
  thread_rounds-IsWell rounds t =
      thread_rounds-Lives rounds t (some (epoll_handler memory, 0))
        (epoll_handler memory, 0, refl, epoll_handler-IsWell)
