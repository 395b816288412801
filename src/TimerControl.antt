-- ===== src/TimerControl.antt =====
-- oryx/TimerControl.h and oryx/TimerControl.cpp: functions that run at intervals.
pub mod Schedule
pub mod Updating
use oryxgame.Common.{
  ℕ, ◌+◌, ◌-◌, ◌*◌, ◌/◌, ◌%◌, suc, Option, none, some, List, [], ◌∷◌, ◌++◌, ltb, leb, if◌then◌else◌,
}

-- `struct timeval`
pub record TimeVal : Type 0 where
  pub tv_sec : ℕ
  pub tv_usec : ℕ

-- `struct TimerFunInfo`; `Fun` stands for the functions that are registered, `none` is the null
-- pointer. Times are milliseconds since 1970 and never negative; an interval of 0 would make `update`
-- divide by 0, and no caller registers one.
pub record TimerFunInfo (Fun : Type 0) : Type 0 where
  pub timeval_fun : Option Fun
  pub interval : ℕ
  pub last_run_time : ℕ

pub record TimerControl (Fun : Type 0) : Type 0 where
  pub m_last_run_time : TimeVal
  pub m_now_time : TimeVal
  pub m_vec_timer_fun : List (TimerFunInfo Fun)

-- What an update does beside changing the timers: the calls, with their argument, in order.
pub record Updated (Fun State : Type 0) : Type 0 where
  pub timer_nums : ℕ
  pub calls : List (Fun × ℕ)
  pub state : State

abbrev pub milliseconds : TimeVal → ℕ
milliseconds t = t.tv_sec * 1000 + t.tv_usec / 1000

module _ {Fun : Type 0} where
  -- The constructor, given what `gettimeofday` stores.
  unfoldable pub timer_control : TimeVal → TimerControl Fun
  timer_control now = record {
    m_last_run_time = now;
    m_now_time = record { tv_sec = 0; tv_usec = 0 };
    m_vec_timer_fun = [];
  }

  -- One round of the loop, for a timer whose function is not null.
  unfoldable pub run_timer : ℕ → Fun → TimerFunInfo Fun → Updated Fun (TimerFunInfo Fun)
  run_timer now fun t =
      let elapsed = now - t.last_run_time in
      if leb (t.last_run_time + t.interval) now
      then record {
        timer_nums = 1;
        calls = (fun, now) ∷ [];
        state = record t { last_run_time = t.last_run_time + (elapsed - elapsed % t.interval) };
      }
      else if ltb now t.last_run_time
      then record { timer_nums = 0; calls = []; state = record t { last_run_time = 0 } }
      else record { timer_nums = 0; calls = []; state = t }

  unfoldable pub visit_timer : ℕ → TimerFunInfo Fun → Updated Fun (TimerFunInfo Fun)
  visit_timer now t = elim t.timeval_fun [
    | none ↦ record { timer_nums = 0; calls = []; state = t }
    | some fun ↦ run_timer now fun t
  ]

  unfoldable pub visit_timers : ℕ → List (TimerFunInfo Fun) → Updated Fun (List (TimerFunInfo Fun))
  visit_timers now [] = record { timer_nums = 0; calls = []; state = [] }
  visit_timers now (t ∷ timers) =
      let one = visit_timer now t in
      let rest = visit_timers now timers in
      record {
        timer_nums = one.timer_nums + rest.timer_nums;
        calls = one.calls ++ rest.calls;
        state = one.state ∷ rest.state;
      }

  -- `update`, given what `gettimeofday` stores.
  unfoldable pub update : TimeVal → TimerControl Fun → Updated Fun (TimerControl Fun)
  update now c =
      let visited = visit_timers (milliseconds now) c.m_vec_timer_fun in
      record {
        timer_nums = visited.timer_nums;
        calls = visited.calls;
        state = record {
          m_last_run_time = c.m_now_time;
          m_now_time = now;
          m_vec_timer_fun = visited.state;
        };
      }

  unfoldable pub register_timer_fun : Option Fun → ℕ → TimerControl Fun → TimerControl Fun
  register_timer_fun fun interval c = record c {
    m_vec_timer_fun =
        c.m_vec_timer_fun
        ++ (record { timeval_fun = fun; interval = interval; last_run_time = 0 } ∷ []);
  }
