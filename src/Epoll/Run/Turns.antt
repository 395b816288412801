-- ===== src/Epoll/Run/Turns.antt =====
-- One round of `epoll_thread_run` and of `EpollRun` (oryx/EpollHandler.cpp), and the order of the tasks.
use oryxgame.Common.{
  ℕ, suc, ◌≤◌, min, ◌≡◌, refl, sym, ap, ◌∙◌, ◌↔◌, inl, inr, Bool, true, false, none, some, List, [],
  ◌∷◌, ◌++◌, append-nil, append_assoc, arith, ◌==◌, if◌then◌else◌, length, take, Option-cases,
}
use oryxgame.Common.Int.{ℤ, pos, negsuc, ◌+ℤ◌, ◌≤ℤ◌, ltb_ℤ}
use oryxgame.Common.Slices.{take-all}
use oryxgame.Task.{Task}
use oryxgame.SpscQueue.{BoundedQueue, Spsc, push}
use oryxgame.SpscQueue.Fifo.{waiting, waiting-push}
use oryxgame.Thread.{Thread, update_thread}
use oryxgame.Thread.Handling.{run_tasks}
use oryxgame.Thread.Rounds.{Rounded, update_thread-Rounded}
use oryxgame.Epoll.State.{Handler}
use oryxgame.Epoll.Table.{TablesAgree}
use oryxgame.Epoll.Events.{Calls, Event, do_epoll_events, dotask}
use oryxgame.Epoll.Events.Rounds.{do_epoll_events-TablesAgree}
use oryxgame.Epoll.Run.{
  max_events, Wait, wait_failed, waited, wait_and_handle, epoll_run, Answers, push_tasks, emptied,
  Serving, serve_task, finish_task, thread_round,
}
use oryxgame.Epoll.Run.Life.{IsWell, events_round_lem, complete_tasks_lem}

abbrev capped : ℕ → ℤ
capped max_event =
    if ltb_ℤ (pos max_events) (pos (suc max_event)) then pos max_events else pos (suc max_event)

positive :
    (max_event : ℕ) (wait : Wait)
    → epoll_run (pos (suc max_event)) wait ≡ wait_and_handle (capped max_event) wait
unfolding epoll_run
positive max_event wait =
    let yes : ltb_ℤ (pos 0) (pos (suc max_event)) ≡ true = ground arith in rw (yes, epoll_run) refl

some_handled :
    (bound : ℤ) (e : Calls × Event) (events : List (Calls × Event)) (h h' : Handler)
    → length (e ∷ events) ≤ max_events
    → do_epoll_events (e ∷ events) h ≡ some (tt, h')
    → wait_and_handle bound (waited (e ∷ events)) h
      ≡ some (
        (if ltb_ℤ bound (pos (length (e ∷ events))) then bound else pos (length (e ∷ events))),
        h',
      )
unfolding wait_and_handle
some_handled bound e events h h' few done =
    let busy : (length (e ∷ events) == 0) ≡ false = ground arith in
    let all : do_epoll_events (take max_events (e ∷ events)) h ≡ some (tt, h') =
      ap (λ list. do_epoll_events list h) (take-all max_events (e ∷ events) few) ∙ done in
    ground (arith, busy, all)

returned :
    (max_event n : ℕ)
    → n ≤ max_events
    → (if ltb_ℤ (capped max_event) (pos n) then capped max_event else pos n)
      ≡ pos (min (suc max_event) n)
returned max_event n few = ground (arith, few)

-- `EpollRun` on tables that agree, when `epoll_wait` has stored no more than the 4096 events that it was
-- asked for: every one of them is handled, also those beyond a positive `maxEvent`, which bounds only the
-- number that is returned. Without events nothing happens, and -1 is returned for a failure of `epoll_wait`;
-- with a `maxEvent` that is not positive, whatever its value, nothing happens and -1 is returned.
pub epoll_run_lem :
    (max_event : ℕ) (low : ℤ) (events : List (Calls × Event)) (h : Handler)
    → TablesAgree h
    → length events ≤ max_events
    → ltb_ℤ (pos 0) low ≡ false
    → (h' : Handler) × (do_epoll_events events h ≡ some (tt, h'))
      × (epoll_run (pos (suc max_event)) (waited events) h
          ≡ some (pos (min (suc max_event) (length events)), h'))
      × (epoll_run (pos (suc max_event)) wait_failed h ≡ some (negsuc 0, h))
      × (epoll_run low (waited events) h ≡ some (negsuc 0, h))
      × TablesAgree h'
unfolding epoll_run wait_and_handle do_epoll_events
epoll_run_lem max_event low [] h v few below = (
  h,
  refl,
  ap (λ run. run h) (positive max_event (waited []))
      ∙ ap (λ n. some (pos n, h))
          (let none_left : 0 ≡ min (suc max_event) 0 = omega arith in none_left),
  ap (λ run. run h) (positive max_event wait_failed),
  rw (below, epoll_run) refl,
  v,
)
epoll_run_lem max_event low (e ∷ events) h v few below =
    let (h', done, v') = do_epoll_events-TablesAgree (e ∷ events) h v in
    (
      h',
      done,
      ap (λ run. run h) (positive max_event (waited (e ∷ events)))
          ∙ some_handled (capped max_event) e events h h' few done
          ∙ ap (λ z. some (z, h')) (returned max_event (length (e ∷ events)) few),
      ap (λ run. run h) (positive max_event wait_failed),
      rw (below, epoll_run) refl,
      v',
    )

module _ (b : BoundedQueue Task) where
  pub waiting-push_tasks :
      (q : Spsc Task b.Queue) (tasks : List Task)
      → waiting b (push_tasks b q tasks) ≡ waiting b q ++ tasks
  unfolding push_tasks
  waiting-push_tasks q [] = sym (append-nil (waiting b q))
  waiting-push_tasks q (t ∷ tasks) =
      waiting-push_tasks (push b q t) tasks
      ∙ ap (λ front. front ++ tasks) (waiting-push b q t).0
      ∙ append_assoc (waiting b q) (t ∷ []) tasks

module _ (b : BoundedQueue Task) (answers : ℕ → Answers) where
  -- Tasks only add to the queue to the logic thread.
  serve_task-adds :
      (t : Task) (s : Serving) (q : Spsc Task b.Queue)
      → (added : List Task) × (waiting b (serve_task b answers t (s, q)).1.1 ≡ waiting b q ++ added)
  unfolding serve_task
  serve_task-adds t none q = ([], sym (append-nil (waiting b q)))
  serve_task-adds t (some (h, n)) q =
      let a = answers n in
      elim (Option-cases (dotask a.registered a.raw a.sends t h)) [
        | inl failed ↦ ([], rw (failed, serve_task) (sym (append-nil (waiting b q))))
        | inr (r, done) ↦
            (r.1.main_queue, rw (done, serve_task) (waiting-push_tasks b q r.1.main_queue))
      ]

  run_tasks-adds :
      (tasks : List Task) (s : Serving × Spsc Task b.Queue)
      → (added : List Task) × (waiting b
            (run_tasks b (serve_task b answers) (finish_task b answers) tasks s).1.1
          ≡ waiting b s.1 ++ added)
  run_tasks-adds [] s = ([], sym (append-nil (waiting b s.1)))
  run_tasks-adds (t ∷ tasks) s =
      let (one, e) = serve_task-adds t s.0 s.1 in
      let (more, e') = run_tasks-adds tasks (serve_task b answers t s).1 in
      (one ++ more, e' ∙ ap (λ front. front ++ more) e ∙ append_assoc (waiting b s.1) one more)

  -- What one round does, from the queues `t` and the handler `h` to the queues `t'`.
  pub record Turned (wait : Wait) (t : Thread Task b.Queue) (h : Handler) (n : ℕ) (asleep : Bool)
      (t' : Thread Task b.Queue) (s' : Serving) : Type 0 where
    pub events : ℤ
    pub count : ℕ
    pub handled : Handler
    pub done : epoll_run (pos max_events) wait h ≡ some (events, handled)
    pub tasks :
        Rounded b
          (serve_task b answers)
          (finish_task b answers)
          t.queue_thread_complete
          t'.queue_thread_complete
          t.queue_thread
          t'.queue_thread
          t.queue_main_complete
          t'.queue_main_complete
          (push_tasks b t.queue_main handled.main_queue)
          t'.queue_main
          (some (emptied handled, n))
          s'
          count
    pub told : List Task
    pub order : waiting b t'.queue_main ≡ waiting b t.queue_main ++ (handled.main_queue ++ told)
    pub slept : (asleep ≡ true) ↔ (events +ℤ pos count ≤ℤ pos 0)

  slept_iff : (z : ℤ) → ((if ltb_ℤ (pos 0) z then false else true) ≡ true) ↔ (z ≤ℤ pos 0)
  slept_iff z = ground arith

  -- One round of `epoll_thread_run` from a handler that is well: first the events that epoll reports are
  -- handled, then the thread completes all that was handed back to it and runs the tasks of the logic thread in
  -- order, each once and at most 1024. What events and tasks push for the logic thread comes, in this
  -- order, behind what already waits there; and the thread sleeps exactly if the number of events, -1 after
  -- a failure, and of tasks together is not positive.
  pub thread_round-Turned :
      (memory : ℤ) (wait : Wait) (t : Thread Task b.Queue) (h : Handler) (n : ℕ)
      → IsWell memory h
      → let (slept, t', s') = thread_round b answers wait t (h, n) in Turned wait t h n slept t' s'
  unfolding thread_round
  thread_round-Turned memory wait t h n w =
      let (events, handled, done, w', e) =
        events_round_lem b answers memory wait h t.queue_main w in
      let start : Thread Task b.Queue = record t {
        queue_main = push_tasks b t.queue_main handled.main_queue;
      } in
      let r =
        update_thread b (serve_task b answers) (finish_task b answers) start
          (some (emptied handled, n)) in
      let q =
        update_thread-Rounded b (serve_task b answers) (finish_task b answers) start
          (some (emptied handled, n)) in
      let (told, more) = run_tasks-adds q.ran (some (emptied handled, n), start.queue_main) in
      rw (e, thread_round)
        (record {
          events = events;
          count = r.count;
          handled = handled;
          done = done;
          tasks = q;
          told = told;
          order =
              q.pushed
              ∙ ap
                  (λ s.
                    waiting b
                      (run_tasks b (serve_task b answers) (finish_task b answers) q.ran s).1.1)
                  (complete_tasks_lem b answers memory q.completed
                    (some (emptied handled, n), start.queue_main))
              ∙ more
              ∙ ap (λ front. front ++ told) (waiting-push_tasks b t.queue_main handled.main_queue)
              ∙ append_assoc (waiting b t.queue_main) handled.main_queue told;
          slept = slept_iff (events +ℤ pos r.count);
        })
