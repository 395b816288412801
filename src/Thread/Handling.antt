-- ===== src/Thread/Handling.antt =====
-- The loops of oryx/thread.cpp, each over one queue.
use oryxgame.Common.{
  ℕ, zero, suc, ◌≤◌, ◌<◌, ◌≡◌, refl, sym, ap, ap₂, ◌∙◌, ◌⊎◌, inl, inr, some, List, [], ◌∷◌, ◌++◌,
  append-nil, append_assoc, arith, length,
}
use oryxgame.SpscQueue.{BoundedQueue, Spsc, push, pop}
use oryxgame.SpscQueue.Fifo.{waiting, waiting-push, pop_lem}
use oryxgame.Thread.{Handled, Completed, handle, complete}

module _ {A S : Type 0} (b : BoundedQueue A) (dotask : A → S → A × S)
    (dotask_complete : A → S → S) where
  -- The tasks run one after another: the tasks as they then are, and the state at the end.
  abbrev pub run_tasks : List A → S → List A × S
  run_tasks [] s = ([], s)
  run_tasks (a ∷ tasks) s =
      ((dotask a s).0 ∷ (run_tasks tasks (dotask a s).1).0, (run_tasks tasks (dotask a s).1).1)

  abbrev pub complete_tasks : List A → S → S
  complete_tasks [] s = s
  complete_tasks (a ∷ tasks) s = complete_tasks tasks (dotask_complete a s)

  pub record Ran (n : ℕ) (i o : Spsc A b.Queue) (s : S) (r : Handled A b.Queue S) : Type 0 where
    pub tasks : List A
    pub order : waiting b i ≡ tasks ++ waiting b r.taken
    pub passed_on : waiting b r.given ≡ waiting b o ++ (run_tasks tasks s).0
    pub state : r.state ≡ (run_tasks tasks s).1
    pub count : r.count ≡ length tasks
    pub limit : r.count ≤ n
    pub stops : (r.count ≡ n) ⊎ (b.contents r.taken.queue ≡ [])

  still_empty : (i : Spsc A b.Queue) → b.contents i.queue ≡ [] → b.contents (pop b i).1.queue ≡ []
  unfolding pop
  still_empty i e = (b.pop_empty i.queue e).1

  nothing-Ran :
      (n : ℕ) (i i' o : Spsc A b.Queue) (s : S)
      → waiting b i' ≡ waiting b i
      → (0 ≡ n) ⊎ (b.contents i'.queue ≡ [])
      → Ran n i o s (record { count = 0; taken = i'; given = o; state = s })
  nothing-Ran n i i' o s same stop = record {
    tasks = [];
    order = sym same;
    passed_on = sym (append-nil (waiting b o));
    state = refl;
    count = refl;
    limit = omega arith;
    stops = stop;
  }

  pub handle-Ran : (n : ℕ) (i o : Spsc A b.Queue) (s : S) → Ran n i o s (handle b dotask n i o s)
  unfolding handle
  handle-Ran zero i o s = nothing-Ran 0 i i o s refl (inl refl)
  handle-Ran (suc n) i o s = elim (pop_lem b i) [
    | inl (nothing, empty, same) ↦
        rw (nothing, handle)
          (nothing-Ran (suc n) i (pop b i).1 o s same (inr (still_empty i empty)))
    | inr (a, first, order) ↦
        let rest = handle-Ran n (pop b i).1 (push b o (dotask a s).0) (dotask a s).1 in
        rw (first, handle)
          (record {
            tasks = a ∷ rest.tasks;
            order = order ∙ ap (◌∷◌ a) rest.order;
            passed_on =
                rest.passed_on
                ∙ ap (λ front. front ++ (run_tasks rest.tasks (dotask a s).1).0)
                    (waiting-push b o (dotask a s).0).0
                ∙ append_assoc (waiting b o) ((dotask a s).0 ∷ [])
                    (run_tasks rest.tasks (dotask a s).1).0;
            state = rest.state;
            count = ap suc rest.count;
            limit = omega (arith, rest.limit);
            stops = elim rest.stops [ inl full ↦ inl (ap suc full) | inr out ↦ inr out ];
          })
  ]

  pub record Finished (i : Spsc A b.Queue) (s : S) (r : Completed A b.Queue S) : Type 0 where
    pub tasks : List A
    pub order : waiting b i ≡ tasks ++ waiting b r.taken
    pub state : r.state ≡ complete_tasks tasks s
    pub count : r.count ≡ length tasks
    pub drained : b.contents r.taken.queue ≡ []

  contents-pop :
      (i : Spsc A b.Queue) (a : A)
      → (pop b i).0 ≡ some a
      → b.contents i.queue ≡ a ∷ b.contents (pop b i).1.queue
  unfolding pop
  contents-pop i a e = from (b.contents i.queue) refl
    where
      from :
          (held : List A)
          → b.contents i.queue ≡ held
          → b.contents i.queue ≡ a ∷ b.contents (b.pop i.queue).1
      from [] h = absurd (ground (arith, e, (b.pop_empty i.queue h).0))
      from (x ∷ rest) h =
          let (first, others) = b.pop_first i.queue x rest h in
          let same : x ≡ a = ground (arith, first, e) in h ∙ ap₂ ◌∷◌ same (sym others)

  pub complete-Finished :
      (fuel : ℕ) (i : Spsc A b.Queue) (s : S)
      → length (b.contents i.queue) < fuel
      → Finished i s (complete b dotask_complete fuel i s)
  unfolding complete
  complete-Finished zero i s h = absurd (omega arith)
  complete-Finished (suc fuel) i s h = elim (pop_lem b i) [
    | inl (nothing, empty, same) ↦
        rw (nothing, complete)
          (record {
            tasks = [];
            order = sym same;
            state = refl;
            count = refl;
            drained = still_empty i empty;
          })
    | inr (a, first, order) ↦
        let shorter : length (b.contents (pop b i).1.queue) < fuel =
          omega (arith, h, ap length (contents-pop i a first)) in
        let rest = complete-Finished fuel (pop b i).1 (dotask_complete a s) shorter in
        rw (first, complete)
          (record {
            tasks = a ∷ rest.tasks;
            order = order ∙ ap (◌∷◌ a) rest.order;
            state = rest.state;
            count = ap suc rest.count;
            drained = rest.drained;
          })
  ]
