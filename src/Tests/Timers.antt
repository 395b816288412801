-- ===== src/Tests/Timers.antt =====
-- A timer of one second (oryx/TimerControl.cpp).
use oryxgame.Common.{ℕ, ◌+◌, ◌*◌, ◌≤◌, ◌≡◌, refl, some, [], ◌∷◌, arith, length}
use oryxgame.TimerControl.{TimeVal, TimerControl, TimerFunInfo, milliseconds, run_timer, update}
use oryxgame.TimerControl.Updating.{Regular, update_lem}
use oryxgame.TimerControl.Schedule.{run_times, run_times-rate}

abbrev second : TimerFunInfo ℕ
second = record { timeval_fun = some 1; interval = 1000; last_run_time = 5000 }

run_times-rate_example :
    length (run_times (5400 ∷ 7300 ∷ 7900 ∷ 8000 ∷ []) 1 second).calls * 1000 + 5000 ≤ 8000
run_times-rate_example =
    run_times-rate (5400 ∷ 7300 ∷ 7900 ∷ 8000 ∷ []) 1 second 5000 (omega arith) (omega arith)
      (omega arith, (omega arith, (omega arith, (omega arith, tt))))

runs : length (run_times (5400 ∷ 7300 ∷ 7900 ∷ 8000 ∷ []) 1 second).calls ≡ 2
unfolding run_times run_timer
runs = refl

-- Two timers, of which the first is due.
abbrev both : TimerControl ℕ
both = record {
  m_last_run_time = record { tv_sec = 6; tv_usec = 0 };
  m_now_time = record { tv_sec = 6; tv_usec = 100000 };
  m_vec_timer_fun =
      second ∷ record { timeval_fun = some 2; interval = 2000; last_run_time = 6000 } ∷ [];
}

abbrev now : TimeVal
now = record { tv_sec = 6; tv_usec = 500000 }

both-Regular : Regular (milliseconds now) both.m_vec_timer_fun
both-Regular = (omega arith, omega arith, (omega arith, omega arith, tt))

update_lem_example :
    ((update now both).calls ≡ (1, 6500) ∷ [])
    × ((update now both).timer_nums ≡ length (update now both).calls)
    × Regular (milliseconds now) (update now both).state.m_vec_timer_fun
    × ((update now (update now both).state).calls ≡ [])
    × ((update now (update now both).state).timer_nums ≡ 0)
update_lem_example = update_lem now both both-Regular
