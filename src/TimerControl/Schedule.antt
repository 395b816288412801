-- ===== src/TimerControl/Schedule.antt =====
-- When the timers of oryx/TimerControl.cpp run.
use oryxgame.Common.{
  ℕ, suc, ◌+◌, ◌-◌, ◌*◌, ◌/◌, ◌≤◌, ◌<◌, ◌≡◌, refl, ap, ◌⊎◌, inl, inr, List, [], ◌∷◌, ◌++◌, arith,
  ltb, leb, Bool-cases, length, if◌then◌else◌,
}
use native.Mathlib.Nat.{mod-lt, div-add-mod'}
use oryxgame.TimerControl.{TimerFunInfo, Updated, run_timer}

-- The times do not fall, nor begin before `from`.
abbrev pub Ascending : ℕ → List ℕ → Type 0
Ascending from [] = Unit {0}
Ascending from (now ∷ times) = (from ≤ now) × Ascending now times

abbrev pub last_time : ℕ → List ℕ → ℕ
last_time from [] = from
last_time from (now ∷ times) = last_time now times

one_interval :
    (elapsed interval : ℕ)
    → 0 < interval
    → interval ≤ elapsed
    → interval ≤ elapsed / interval * interval
one_interval elapsed interval h k = grind (arith, div-add-mod' elapsed interval, mod-lt elapsed h)

module _ {Fun : Type 0} where
  -- A timer that is due runs once, with the present time; its last run then lies less than an interval
  -- back, a whole number of intervals after the one before, so that delays do not add up. A timer that
  -- is not due does not run, and stays as it is unless the clock was set back behind its last run:
  -- then it starts from 0.
  pub run_timer_lem :
      (now : ℕ) (fun : Fun) (t : TimerFunInfo Fun)
      → 0 < t.interval
      → let u = run_timer now fun t in
        ((t.last_run_time + t.interval ≤ now)
          × (u.calls ≡ (fun, now) ∷ [])
          × (u.state.last_run_time
              ≡ t.last_run_time + (now - t.last_run_time) / t.interval * t.interval)
          × (u.state.last_run_time ≤ now)
          × (now < u.state.last_run_time + t.interval))
        ⊎ ((now < t.last_run_time + t.interval)
            × (u.calls ≡ [])
            × (u.state.last_run_time ≡ (if ltb now t.last_run_time then 0 else t.last_run_time)))
  unfolding run_timer
  run_timer_lem now fun t h =
      let elapsed = now - t.last_run_time in
      let split = div-add-mod' elapsed t.interval in
      let below = mod-lt elapsed h in
      elim (Bool-cases (leb (t.last_run_time + t.interval) now)) [
        | inl due ↦ rw due (
            inl (
              ground arith,
              refl,
              ground (arith, split),
              ground (arith, split),
              ground (arith, split, below),
            ))
        | inr early ↦ rw early (inr (ground arith, ground arith, ground arith))
      ]

  pub interval-run_timer :
      (now : ℕ) (fun : Fun) (t : TimerFunInfo Fun)
      → ((run_timer now fun t).state.interval ≡ t.interval)
        × ((run_timer now fun t).state.timeval_fun ≡ t.timeval_fun)
        × ((run_timer now fun t).timer_nums ≡ length (run_timer now fun t).calls)
  unfolding run_timer
  interval-run_timer now fun t = ground arith

  -- The rounds of one timer at successive times.
  unfoldable pub run_times : List ℕ → Fun → TimerFunInfo Fun → Updated Fun (TimerFunInfo Fun)
  run_times [] fun t = record { timer_nums = 0; calls = []; state = t }
  run_times (now ∷ times) fun t =
      let one = run_timer now fun t in
      let rest = run_times times fun one.state in
      record {
        timer_nums = one.timer_nums + rest.timer_nums;
        calls = one.calls ++ rest.calls;
        state = rest.state;
      }

  -- While the clock is not set back, a timer never runs more often than its interval allows: between its
  -- last run before and the last update there is room for an interval for each call.
  pub run_times-rate :
      (times : List ℕ) (fun : Fun) (t : TimerFunInfo Fun) (from : ℕ)
      → 0 < t.interval
      → t.last_run_time ≤ from
      → Ascending from times
      → length (run_times times fun t).calls * t.interval + t.last_run_time ≤ last_time from times
  unfolding run_times
  run_times-rate [] fun t from h k a = omega arith
  run_times-rate (now ∷ times) fun t from h k a = elim (run_timer_lem now fun t h) [
    | inl (due, called, moved, le, near) ↦
        let (same, _, _) = interval-run_timer now fun t in
        let advanced = one_interval (now - t.last_run_time) t.interval h (omega arith) in
        let ih =
          run_times-rate times fun (run_timer now fun t).state now (omega (arith, same)) le a.1 in
        let calls : length (
              (run_timer now fun t).calls
              ++ (run_times times fun (run_timer now fun t).state).calls)
            ≡ suc (length (run_times times fun (run_timer now fun t).state).calls) =
          rw called in
        rw calls (
          omega (
            arith,
            ap
                (λ interval.
                  length (run_times times fun (run_timer now fun t).state).calls * interval)
                same,
          ))
    | inr (early, quiet, kept) ↦
        let kept_le : (run_timer now fun t).state.last_run_time ≡ t.last_run_time =
          ground (arith, kept) in
        let (same, _, _) = interval-run_timer now fun t in
        let ih =
          run_times-rate times fun (run_timer now fun t).state now (omega (arith, same))
            (omega (arith, kept_le)) a.1 in
        rw quiet (
          omega (
            arith,
            kept_le,
            ap
                (λ interval.
                  length (run_times times fun (run_timer now fun t).state).calls * interval)
                same,
          ))
  ]
