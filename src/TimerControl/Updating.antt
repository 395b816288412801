-- ===== src/TimerControl/Updating.antt =====
-- A whole `update` of oryx/TimerControl.cpp.
use oryxgame.Common.{
  ℕ, ◌+◌, ◌≤◌, ◌<◌, ◌≡◌, refl, sym, ap, ap₂, ◌∙◌, inl, inr, true, false, Option, none, some, List,
  [], ◌∷◌, ◌++◌, arith, ltb, if◌then◌else◌, length, length-append, subst, Option-cases,
}
use oryxgame.TimerControl.{
  TimeVal, TimerFunInfo, TimerControl, Updated, milliseconds, run_timer, visit_timer, visit_timers,
  update,
}
use oryxgame.TimerControl.Schedule.{run_timer_lem, interval-run_timer}

early : (now at : ℕ) → now < at → ltb now at ≡ true
early now at h = ground (arith, h)

late : (now at : ℕ) → at ≤ now → ltb now at ≡ false
late now at h = ground (arith, h)

module _ {Fun : Type 0} where
  -- The intervals are positive, and no timer has run later than at this time.
  abbrev pub Regular : ℕ → List (TimerFunInfo Fun) → Type 0
  Regular now [] = Unit {0}
  Regular now (t ∷ timers) = (0 < t.interval) × (t.last_run_time ≤ now) × Regular now timers

  -- The call of a timer that is due, and of all timers, in the order of the timers.
  abbrev pub due_of : ℕ → TimerFunInfo Fun → Option Fun → List (Fun × ℕ)
  due_of now t none = []
  due_of now t (some fun) = if ltb now (t.last_run_time + t.interval) then [] else ((fun, now) ∷ [])

  abbrev pub due : ℕ → List (TimerFunInfo Fun) → List (Fun × ℕ)
  due now [] = []
  due now (t ∷ timers) = due_of now t t.timeval_fun ++ due now timers

  -- What a visit leaves.
  record Visited (now : ℕ) (t : TimerFunInfo Fun) (u : Updated Fun (TimerFunInfo Fun))
      : Type 0 where
    calls : u.calls ≡ due_of now t t.timeval_fun
    count : u.timer_nums ≡ length u.calls
    interval : u.state.interval ≡ t.interval
    le : u.state.last_run_time ≤ now
    quiet : due_of now u.state u.state.timeval_fun ≡ []

  visit_none :
      (now : ℕ) (t : TimerFunInfo Fun)
      → t.timeval_fun ≡ none
      → visit_timer now t ≡ record { timer_nums = 0; calls = []; state = t }
  unfolding visit_timer
  visit_none now t e =
      ap
        (λ f. elim f [
          | none ↦ record { timer_nums = 0; calls = []; state = t }
          | some fun ↦ run_timer now fun t
        ])
        e

  visit_some :
      (now : ℕ) (t : TimerFunInfo Fun) (fun : Fun)
      → t.timeval_fun ≡ some fun
      → visit_timer now t ≡ run_timer now fun t
  unfolding visit_timer
  visit_some now t fun e =
      ap
        (λ f. elim f [
          | none ↦ record { timer_nums = 0; calls = []; state = t }
          | some fun ↦ run_timer now fun t
        ])
        e

  idle-Visited :
      (now : ℕ) (t : TimerFunInfo Fun)
      → t.timeval_fun ≡ none
      → t.last_run_time ≤ now
      → Visited now t (record { timer_nums = 0; calls = []; state = t })
  idle-Visited now t e le = record {
    calls = sym (ap (due_of now t) e);
    count = refl;
    interval = refl;
    le = le;
    quiet = ap (due_of now t) e;
  }

  not_due :
      (now : ℕ) (t : TimerFunInfo Fun) (fun : Fun)
      → t.timeval_fun ≡ some fun
      → now < t.last_run_time + t.interval
      → due_of now t t.timeval_fun ≡ []
  not_due now t fun e h = ap (due_of now t) e ∙ rw (early now (t.last_run_time + t.interval) h) refl

  is_due :
      (now : ℕ) (t : TimerFunInfo Fun) (fun : Fun)
      → t.timeval_fun ≡ some fun
      → t.last_run_time + t.interval ≤ now
      → due_of now t t.timeval_fun ≡ (fun, now) ∷ []
  is_due now t fun e h = ap (due_of now t) e ∙ rw (late now (t.last_run_time + t.interval) h) refl

  run_timer-Visited :
      (now : ℕ) (t : TimerFunInfo Fun) (fun : Fun)
      → t.timeval_fun ≡ some fun
      → 0 < t.interval
      → t.last_run_time ≤ now
      → Visited now t (run_timer now fun t)
  run_timer-Visited now t fun e h le =
      let (same, kept, count) = interval-run_timer now fun t in
      let after = (run_timer now fun t).state in
      elim (run_timer_lem now fun t h) [
        | inl (over, called, moved, before, near) ↦ record {
          calls = called ∙ sym (is_due now t fun e over);
          count = count;
          interval = same;
          le = before;
          quiet = not_due now after fun (kept ∙ e) (omega (arith, near, same));
        }
        | inr (early_yet, quiet, stays) ↦
            let unmoved : after.last_run_time ≡ t.last_run_time =
              stays ∙ rw (late now t.last_run_time le) refl in
            record {
              calls = quiet ∙ sym (not_due now t fun e early_yet);
              count = count;
              interval = same;
              le = omega (arith, unmoved, le);
              quiet = not_due now after fun (kept ∙ e) (omega (arith, early_yet, unmoved, same));
            }
      ]

  visit_timer-Visited :
      (now : ℕ) (t : TimerFunInfo Fun)
      → 0 < t.interval
      → t.last_run_time ≤ now
      → Visited now t (visit_timer now t)
  visit_timer-Visited now t h le = elim (Option-cases t.timeval_fun) [
    | inl null ↦ subst (Visited now t) (sym (visit_none now t null)) (idle-Visited now t null le)
    | inr (fun, e) ↦
        subst (Visited now t) (sym (visit_some now t fun e)) (run_timer-Visited now t fun e h le)
  ]

  -- What the visits of all timers leave.
  record AllVisited (now : ℕ) (timers : List (TimerFunInfo Fun))
      (u : Updated Fun (List (TimerFunInfo Fun))) : Type 0 where
    calls : u.calls ≡ due now timers
    count : u.timer_nums ≡ length u.calls
    regular : Regular now u.state
    quiet : due now u.state ≡ []

  all-AllVisited :
      (now : ℕ) (timers : List (TimerFunInfo Fun))
      → Regular now timers
      → AllVisited now timers (visit_timers now timers)
  unfolding visit_timers
  all-AllVisited now [] r = record { calls = refl; count = refl; regular = tt; quiet = refl }
  all-AllVisited now (t ∷ timers) (h, le, r) =
      let one = visit_timer-Visited now t h le in
      let rest = all-AllVisited now timers r in
      record {
        calls = ap₂ ◌++◌ one.calls rest.calls;
        count = omega (
          arith,
          one.count,
          rest.count,
          length-append (visit_timer now t).calls (visit_timers now timers).calls,
        );
        regular = (omega (arith, one.interval, h), one.le, rest.regular);
        quiet = ap₂ ◌++◌ one.quiet rest.quiet;
      }

  -- `update` at a time before which no timer has run, with positive intervals: the functions that are called
  -- are those of the timers whose interval is over, in the order in which they were registered, each once
  -- with the time in milliseconds, and the result is their number. Afterwards no timer is due: a second
  -- update at the same time calls none and returns 0.
  pub update_lem :
      (now : TimeVal) (c : TimerControl Fun)
      → Regular (milliseconds now) c.m_vec_timer_fun
      → ((update now c).calls ≡ due (milliseconds now) c.m_vec_timer_fun)
        × ((update now c).timer_nums ≡ length (update now c).calls)
        × Regular (milliseconds now) (update now c).state.m_vec_timer_fun
        × ((update now (update now c).state).calls ≡ [])
        × ((update now (update now c).state).timer_nums ≡ 0)
  unfolding update
  update_lem now c r =
      let first = all-AllVisited (milliseconds now) c.m_vec_timer_fun r in
      let timers = (visit_timers (milliseconds now) c.m_vec_timer_fun).state in
      let second = all-AllVisited (milliseconds now) timers first.regular in
      let quiet = second.calls ∙ first.quiet in
      (first.calls, first.count, first.regular, quiet, second.count ∙ ap length quiet)
