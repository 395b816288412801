-- ===== src/Server/Running.antt =====
-- When the loop of `ServerHandler::run` sleeps (logic/ServerHandler.cpp).
use oryxgame.Common.{
  ℕ, ◌≡◌, ◌≢◌, ◌⊎◌, inl, inr, refl, Bool-cases, sym, ap, ◌∙◌, ◌↔◌, true, false, ◌&&◌, Option, List,
  [], ◌∷◌, arith, leb, length,
}
use oryxgame.Common.Int.{ℤ}
use oryxgame.SpscQueue.{BoundedQueue, Spsc}
use oryxgame.Thread.{Thread}
use oryxgame.ThreadManager.Turns.Quiet.{AreUntouched, update-AreUntouched}
use oryxgame.ThreadManager.Turns
use oryxgame.TimerControl.{TimeVal, TimerControl, milliseconds}
use oryxgame.TimerControl
use oryxgame.TimerControl.Updating.{Regular, due, update_lem}
use oryxgame.Server.{run_round}

both_zero : (m n : ℕ) → ((leb m 0 && leb n 0) ≡ true) ↔ ((m ≡ 0) × (n ≡ 0))
both_zero m n = ground arith

not_both : (m n : ℕ) → (leb m 0 && leb n 0) ≡ false → (m ≢ 0) ⊎ (n ≢ 0)
not_both m n h = elim (Bool-cases (leb m 0)) [
  | inl zero ↦ inr (λ e. ground (arith, h, zero, e))
  | inr more ↦ inl (λ e. ground (arith, more, e))
]

no_calls : {A : Type 0} (xs : List A) → length xs ≡ 0 → xs ≡ []
no_calls [] e = refl
no_calls (x ∷ xs) e = absurd (omega (arith, e))

module _ {A S Fun : Type 0} (b : BoundedQueue A)
    (dotask : A → S × Spsc A b.Queue → A × (S × Spsc A b.Queue))
    (dotask_complete : A → S × Spsc A b.Queue → S × Spsc A b.Queue) where
  -- A round of the loop, at a time before which no timer has run and with positive intervals, calls the
  -- functions of the timers that are due, in their order. Either no timer was due and no thread had a task to
  -- run or to complete: then it sleeps, the state of the logic thread is as before, the same tasks wait in all
  -- queues of every thread, and no queue holds a task that the logic thread could take. Or something was
  -- done, and it does not sleep.
  pub run_round_lem :
      (now : TimeVal) (timers : TimerControl Fun) (threads : List (ℤ × Option (Thread A b.Queue)))
      (s : S)
      → Regular (milliseconds now) timers.m_vec_timer_fun
      → let r = run_round b dotask dotask_complete now timers threads s in
        (r.calls ≡ due (milliseconds now) timers.m_vec_timer_fun)
        × (((r.slept ≡ true)
              × (due (milliseconds now) timers.m_vec_timer_fun ≡ [])
              × (r.turn.count ≡ 0)
              × AreUntouched b dotask dotask_complete threads r.turn.threads
              × (r.turn.state ≡ s))
            ⊎ ((r.slept ≡ false)
                × ((r.turn.count ≢ 0) ⊎ (due (milliseconds now) timers.m_vec_timer_fun ≢ []))))
  unfolding run_round
  run_round_lem now timers threads s r =
      let u = TimerControl.update now timers in
      let turn = Turns.update b dotask dotask_complete threads s in
      let (calls, count, _, _, _) = update_lem now timers r in
      (
        calls,
        elim (Bool-cases (leb turn.count 0 && leb u.timer_nums 0)) [
          | inl slept ↦
              let (idle, quiet) = (both_zero turn.count u.timer_nums).0 slept in
              let (same, state) = update-AreUntouched b dotask dotask_complete threads s idle in
              inl (slept, sym calls ∙ no_calls u.calls (sym count ∙ quiet), idle, same, state)
          | inr awake ↦ inr (
            awake,
            elim (not_both turn.count u.timer_nums awake) [
              | inl busy ↦ inl busy
              | inr called ↦ inr (λ none_due. called (count ∙ ap length (calls ∙ none_due)))
            ],
          )
        ],
      )
