-- ===== src/ThreadManager/Turns/Quiet.antt =====
-- What `ThreadManager::update` (oryx/threadManager.cpp) has done when it returns 0.
use oryxgame.Common.{
  ◌≡◌, refl, sym, ap, ◌∙◌, inl, inr, Option, none, some, List, [], ◌∷◌, ◌++◌, append-nil, arith,
  length,
}
use oryxgame.Common.Int.{ℤ}
use oryxgame.SpscQueue.{BoundedQueue, Spsc}
use oryxgame.SpscQueue.Fifo.{waiting}
use oryxgame.Thread.{Thread, update_main}
use oryxgame.Thread.Rounds.{outcome, update_main-Rounded}
use oryxgame.ThreadManager.Turns.{update}

empty_of : {A : Type 0} (xs : List A) → length xs ≡ 0 → xs ≡ []
empty_of [] e = refl
empty_of (x ∷ xs) e = absurd (omega (arith, e))

module _ {A S : Type 0} (b : BoundedQueue A)
    (dotask : A → S × Spsc A b.Queue → A × (S × Spsc A b.Queue))
    (dotask_complete : A → S × Spsc A b.Queue → S × Spsc A b.Queue) where
  -- The same tasks wait in all four queues, and none can be taken.
  pub record IsUntouched (t t' : Thread A b.Queue) : Type 0 where
    pub queue_main : waiting b t'.queue_main ≡ waiting b t.queue_main
    pub queue_main_complete : waiting b t'.queue_main_complete ≡ waiting b t.queue_main_complete
    pub queue_thread : waiting b t'.queue_thread ≡ waiting b t.queue_thread
    pub queue_thread_complete :
        waiting b t'.queue_thread_complete ≡ waiting b t.queue_thread_complete
    pub none_left : b.contents t'.queue_main.queue ≡ []
    pub none_to_complete : b.contents t'.queue_main_complete.queue ≡ []

  round-IsUntouched :
      (t : Thread A b.Queue) (s : S)
      → (update_main b dotask dotask_complete t s).count ≡ 0
      → IsUntouched t (update_main b dotask dotask_complete t s).thread
        × ((update_main b dotask dotask_complete t s).state ≡ s)
  round-IsUntouched t s idle =
      let r = update_main b dotask dotask_complete t s in
      let q = update_main-Rounded b dotask dotask_complete t s in
      let none_completed : q.completed ≡ [] =
        empty_of q.completed (omega (arith, q.counted, idle)) in
      let none_ran : q.ran ≡ [] = empty_of q.ran (omega (arith, q.counted, idle)) in
      let same : outcome b dotask dotask_complete q.completed q.ran s t.queue_thread
          ≡ ([], (s, t.queue_thread)) =
        rw (none_completed, none_ran) refl in
      (
        record {
          queue_main =
              sym (q.from_order ∙ ap (λ ran. ran ++ waiting b r.thread.queue_main) none_ran);
          queue_main_complete = sym (
              q.finish_order
              ∙ ap (λ done. done ++ waiting b r.thread.queue_main_complete) none_completed);
          queue_thread = q.pushed ∙ ap (λ o. waiting b o.1.1) same;
          queue_thread_complete =
              q.passed_on
              ∙ ap (λ o. waiting b t.queue_thread_complete ++ o.0) same
              ∙ append-nil (waiting b t.queue_thread_complete);
          none_left = elim q.stops [
            | inl full ↦ absurd (omega (arith, full, q.counted, idle))
            | inr out ↦ out
          ];
          none_to_complete = q.drained;
        },
        q.state ∙ ap (λ o. o.1.0) same,
      )

  abbrev pub SameThread : Option (Thread A b.Queue) → Option (Thread A b.Queue) → Type 0
  SameThread none none = Unit {0}
  SameThread none (some t') = ⊥
  SameThread (some t) none = ⊥
  SameThread (some t) (some t') = IsUntouched t t'

  -- Each thread under its number.
  abbrev pub AreUntouched :
      List (ℤ × Option (Thread A b.Queue)) → List (ℤ × Option (Thread A b.Queue)) → Type 0
  AreUntouched [] [] = Unit {0}
  AreUntouched [] (t' ∷ threads') = ⊥
  AreUntouched (t ∷ threads) [] = ⊥
  AreUntouched (t ∷ threads) (t' ∷ threads') =
      (t'.0 ≡ t.0) × SameThread t.1 t'.1 × AreUntouched threads threads'

  -- When `ThreadManager::update` returns 0, the state of the logic thread is as before, the same tasks wait
  -- in all queues of every thread, and no queue holds a task that the logic thread could take.
  pub update-AreUntouched :
      (threads : List (ℤ × Option (Thread A b.Queue))) (s : S)
      → (update b dotask dotask_complete threads s).count ≡ 0
      → AreUntouched threads (update b dotask dotask_complete threads s).threads
        × ((update b dotask dotask_complete threads s).state ≡ s)
  unfolding update
  update-AreUntouched [] s idle = (tt, refl)
  update-AreUntouched ((k, none) ∷ threads) s idle =
      let (same, state) = update-AreUntouched threads s idle in ((refl, tt, same), state)
  update-AreUntouched ((k, some t) ∷ threads) s idle =
      let r = update_main b dotask dotask_complete t s in
      let (one, kept) = round-IsUntouched t s (omega (arith, idle)) in
      let (same, state) = update-AreUntouched threads r.state (omega (arith, idle)) in
      ((refl, one, same), state ∙ kept)
