-- ===== src/Thread/Rounds.antt =====
-- One round of each thread over the queues of oryx/thread.cpp.
use oryxgame.Common.{
  ℕ, suc, ◌+◌, ◌≤◌, ◌≡◌, sym, ap, ap₂, ◌∙◌, ◌⊎◌, inl, inr, List, [], ◌++◌, arith, length,
}
use oryxgame.SpscQueue.{BoundedQueue, Spsc, check_cache}
use oryxgame.SpscQueue.Fifo.{waiting, check_cache_lem}
use oryxgame.Thread.{
  max_handler_size_per_frame, Thread, handle, complete, handler_task_main, handler_task_thread,
  handler_task_main_complete, handler_task_thread_complete, update_main, update_thread,
}
use oryxgame.Thread.Handling.{run_tasks, complete_tasks, handle-Ran, complete-Finished}

module _ {A S : Type 0} (b : BoundedQueue A)
    (dotask : A → S × Spsc A b.Queue → A × (S × Spsc A b.Queue))
    (dotask_complete : A → S × Spsc A b.Queue → S × Spsc A b.Queue) where
  -- The tasks as they are after they were run, and the state and the queue that the tasks leave, when some
  -- were completed and then others run.
  abbrev pub outcome : List A → List A → S → Spsc A b.Queue → List A × (S × Spsc A b.Queue)
  outcome completed ran s own =
      run_tasks b dotask dotask_complete ran
        (complete_tasks b dotask dotask_complete completed (s, own))

  -- A round that completes tasks from the first queue, runs tasks from the second, passes them on to the
  -- third, and has the fourth for what the tasks themselves push: the queues before and after it.
  pub record Rounded (finish finish' from from' to to' own own' : Spsc A b.Queue) (s s' : S)
      (count : ℕ) : Type 0 where
    pub completed : List A
    pub ran : List A
    pub finish_order : waiting b finish ≡ completed ++ waiting b finish'
    pub from_order : waiting b from ≡ ran ++ waiting b from'
    pub passed_on : waiting b to' ≡ waiting b to ++ (outcome completed ran s own).0
    pub pushed : waiting b own' ≡ waiting b (outcome completed ran s own).1.1
    pub state : s' ≡ (outcome completed ran s own).1.0
    pub counted : count ≡ length completed + length ran
    pub limit : length ran ≤ max_handler_size_per_frame
    pub drained : b.contents finish'.queue ≡ []
    pub stops : (length ran ≡ max_handler_size_per_frame) ⊎ (b.contents from'.queue ≡ [])

  -- The two loops and the two calls of `checkCache` of a round.
  loops :
      (finish from to own : Spsc A b.Queue) (s : S)
      → let c =
          complete b dotask_complete (suc (length (b.contents finish.queue))) finish (s, own) in
        let r = handle b dotask max_handler_size_per_frame from to c.state in
        Rounded finish c.taken from r.taken to
          (check_cache b r.given).1
          own
          (check_cache b r.state.1).1
          s
          r.state.0
          (c.count + r.count)
  loops finish from to own s =
      let c = complete b dotask_complete (suc (length (b.contents finish.queue))) finish (s, own) in
      let r = handle b dotask max_handler_size_per_frame from to c.state in
      let f =
        complete-Finished b dotask dotask_complete (suc (length (b.contents finish.queue))) finish
          (s, own) (omega arith) in
      let q = handle-Ran b dotask dotask_complete max_handler_size_per_frame from to c.state in
      let after = q.state ∙ ap (λ s. (run_tasks b dotask dotask_complete q.tasks s).1) f.state in
      record {
        completed = f.tasks;
        ran = q.tasks;
        finish_order = f.order;
        from_order = q.order;
        passed_on =
            (check_cache_lem b r.given).0
            ∙ q.passed_on
            ∙ ap (λ s. waiting b to ++ (run_tasks b dotask dotask_complete q.tasks s).0) f.state;
        pushed = (check_cache_lem b r.state.1).0 ∙ ap (λ after. waiting b after.1) after;
        state = ap (λ after. after.0) after;
        counted = ap₂ ◌+◌ f.count q.count;
        limit = omega (arith, q.count, q.limit);
        drained = f.drained;
        stops = elim q.stops [ inl full ↦ inl (sym q.count ∙ full) | inr out ↦ inr out ];
      }

  -- `update_main`: the logic thread completes every task that the epoll thread has handed back, then runs
  -- the epoll thread's tasks in their order, each once and at most 1024, and hands each back for completion
  -- as it then is; it stops early only when no more are there. The state and the queue of the logic thread's
  -- own tasks are as these tasks leave them. No task of the other queues is lost, doubled or overtaken.
  pub update_main-Rounded :
      (t : Thread A b.Queue) (s : S)
      → let r = update_main b dotask dotask_complete t s in
        Rounded t.queue_main_complete r.thread.queue_main_complete t.queue_main r.thread.queue_main
          t.queue_thread_complete r.thread.queue_thread_complete t.queue_thread
          r.thread.queue_thread s r.state r.count
  unfolding update_main handler_task_main handler_task_main_complete
  update_main-Rounded t s =
      loops t.queue_main_complete t.queue_main t.queue_thread_complete t.queue_thread s

  -- `update_thread`: the epoll thread completes every task that the logic thread has handed back, then runs
  -- the logic thread's tasks in their order, each once and at most 1024, and hands each back for completion
  -- as it then is; it stops early only when no more are there. The state and the queue of the epoll thread's
  -- own tasks are as these tasks leave them. No task of the other queues is lost, doubled or overtaken.
  pub update_thread-Rounded :
      (t : Thread A b.Queue) (s : S)
      → let r = update_thread b dotask dotask_complete t s in
        Rounded t.queue_thread_complete r.thread.queue_thread_complete t.queue_thread
          r.thread.queue_thread t.queue_main_complete r.thread.queue_main_complete t.queue_main
          r.thread.queue_main s r.state r.count
  unfolding update_thread handler_task_thread handler_task_thread_complete
  update_thread-Rounded t s =
      loops t.queue_thread_complete t.queue_thread t.queue_main_complete t.queue_main s
