-- ===== src/ThreadManager/Choice.antt =====
-- The epoll thread that oryx/threadManager.cpp chooses, and that gets the task.
use oryxgame.Common.{
  ◌≡◌, ◌≢◌, refl, sym, ap, subst, ◌∙◌, ◌⊎◌, inl, inr, none, some, [], ◌∷◌, ◌++◌, arith,
  if◌then◌else◌, Bool-cases,
}
use oryxgame.Common.Int.{ℤ, pos, ltb_ℤ, eqb_ℤ, eqb_ℤ_iff, ◌≤ℤ◌}
use oryxgame.Common.Map.{find, insert, find-insert}
use oryxgame.Task.{Task, get_thread_id}
use oryxgame.ThreadManager.{
  EpollThread, ThreadMap, less_pressure, get_less_pressure_thread, push_task_thread, push_task,
}

-- Each entry holds the thread of its number, and each number occurs once.
abbrev pub IsValid : ThreadMap → Type 0
IsValid [] = Unit {0}
IsValid ((k, t) ∷ threads) = (k ≡ t.thread_id) × (find k threads ≡ none) × IsValid threads

-- No thread of the map has less pressure.
abbrev pub IsLeast : ℤ → ThreadMap → Type 0
IsLeast pressure [] = Unit {0}
IsLeast pressure ((k, t) ∷ threads) = (pressure ≤ℤ t.pressure) × IsLeast pressure threads

-- The loop returns the best of what it had and of the map.
record Chosen (now : EpollThread) (threads : ThreadMap) (t : EpollThread) : Type 0 where
  result : less_pressure (some now) threads ≡ some t
  le_now : t.pressure ≤ℤ now.pressure
  least : IsLeast t.pressure threads
  held : (t ≡ now) ⊎ (find t.thread_id threads ≡ some t)

-- An entry of the rest is an entry of the map.
later :
    (k : ℤ) (first : EpollThread) (threads : ThreadMap) (t : EpollThread)
    → IsValid ((k, first) ∷ threads)
    → find t.thread_id threads ≡ some t
    → find t.thread_id ((k, first) ∷ threads) ≡ some t
unfolding find
later k first threads t (own, fresh, v) e = elim (Bool-cases (eqb_ℤ k t.thread_id)) [
  | inl same ↦
      let used : find k threads ≡ some t =
        ap (λ x. find x threads) ((eqb_ℤ_iff k t.thread_id).0 same) ∙ e in
      absurd (ground (arith, used, fresh))
  | inr other ↦ ground (arith, other, e)
]

first_found :
    (t : EpollThread) (k : ℤ) (threads : ThreadMap)
    → k ≡ t.thread_id
    → find t.thread_id ((k, t) ∷ threads) ≡ some t
unfolding find
first_found t k threads own = ground (arith, eqb_ℤ_iff k t.thread_id)

less_pressure-Chosen :
    (now : EpollThread) (threads : ThreadMap)
    → IsValid threads
    → (t : EpollThread) × Chosen now threads t
unfolding less_pressure
less_pressure-Chosen now [] v =
    (now, record { result = refl; le_now = omega arith; least = tt; held = inl refl })
less_pressure-Chosen now ((k, first) ∷ threads) (own, fresh, v) =
    elim (Bool-cases (ltb_ℤ first.pressure now.pressure)) [
      | inl less ↦
          let (t, c) = less_pressure-Chosen first threads v in
          (
            t,
            record {
              result = rw less c.result;
              le_now = ground (arith, c.le_now, less);
              least = (c.le_now, c.least);
              held = inr (elim c.held [
                | inl same ↦
                    subst (λ x. find x.thread_id ((k, first) ∷ threads) ≡ some x) (sym same)
                      (first_found first k threads own)
                | inr there ↦ later k first threads t (own, fresh, v) there
              ]);
            },
          )
      | inr more ↦
          let (t, c) = less_pressure-Chosen now threads v in
          (
            t,
            record {
              result = rw more c.result;
              le_now = c.le_now;
              least = (ground (arith, c.le_now, more), c.least);
              held = elim c.held [
                | inl same ↦ inl same
                | inr there ↦ inr (later k first threads t (own, fresh, v) there)
              ];
            },
          )
    ]

-- What `getLessPressureThread_Epoll` finds among some threads.
abbrev pub Found : ThreadMap → EpollThread → Type 0
Found threads t =
    (less_pressure none threads ≡ some t)
    × IsLeast t.pressure threads
    × (find t.thread_id threads ≡ some t)

pub some_thread :
    (k : ℤ) (first : EpollThread) (threads : ThreadMap)
    → IsValid ((k, first) ∷ threads)
    → (t : EpollThread) × Found ((k, first) ∷ threads) t
unfolding less_pressure
some_thread k first threads (own, fresh, v) =
    let (t, c) = less_pressure-Chosen first threads v in
    (
      t,
      (
        c.result,
        (c.le_now, c.least),
        elim c.held [
          | inl same ↦
              subst (λ x. find x.thread_id ((k, first) ∷ threads) ≡ some x) (sym same)
                (first_found first k threads own)
          | inr there ↦ later k first threads t (own, fresh, v) there
        ],
      ),
    )

-- `push_task` of a task that names no thread, with a map that is not empty and has each number once:
-- the task goes behind the others of one thread of the map, than which none has less pressure; the
-- result is this thread's number, and the other threads stay as they are.
pub push_task-IsLeast :
    (task : Task) (threads : ThreadMap)
    → IsValid threads
    → threads ≢ []
    → get_thread_id task ≡ pos 0
    → (t : EpollThread) × (threads' : ThreadMap) × (push_task task threads
        ≡ (t.thread_id, threads'))
      × (find t.thread_id threads ≡ some t)
      × IsLeast t.pressure threads
      × ((k : ℤ)
          → find k threads' ≡ (
              if eqb_ℤ t.thread_id k
              then some (record t { queue_thread = t.queue_thread ++ (task ∷ []) })
              else find k threads))
unfolding push_task push_task_thread get_less_pressure_thread
push_task-IsLeast task [] v some_there any = absurd (some_there refl)
push_task-IsLeast task ((k, first) ∷ threads) v some_there any =
    let (t, found) = some_thread k first threads v in
    let (result, least, held) = found in
    (
      t,
      insert t.thread_id (push_task_thread task t) ((k, first) ∷ threads),
      ground (arith, any, result),
      held,
      least,
      λ j. find-insert t.thread_id j (push_task_thread task t) ((k, first) ∷ threads),
    )
