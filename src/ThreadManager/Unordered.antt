-- ===== src/ThreadManager/Unordered.antt =====
-- The map of threads (oryx/threadManager.h) without the order in which `std::unordered_map` goes through
-- it: the pressure that `getLessPressureThread_Epoll` (oryx/threadManager.cpp) finds does not depend on it.
use oryxgame.Common.{
  ◌≡◌, refl, sym, ap, ◌∙◌, inl, inr, true, Option, none, some, [], ◌∷◌, arith, subst, Bool-cases,
}
use oryxgame.Common.Int.{ℤ, pos, eqb_ℤ, eqb_ℤ_refl, ◌≤ℤ◌}
use oryxgame.Common.Map.{find}
use oryxgame.ThreadManager.{EpollThread, ThreadMap, get_less_pressure_thread}
use oryxgame.ThreadManager.Choice.{IsValid, IsLeast, some_thread}
use mathlib.Core.Quot
use mathlib.Core.Quot.{Quot}

ℤ_set : IsSet ℤ
ℤ_set = hlevel

pub Option_ℤ_set : IsSet (Option ℤ)
Option_ℤ_set = hlevel

abbrev pub pressure_of : Option EpollThread → Option ℤ
pressure_of none = none
pressure_of (some t) = some t.pressure

-- Both maps hold the same thread under each number.
abbrev pub SameThreads : ThreadMap → ThreadMap → Type 0
SameThreads threads threads' = (k : ℤ) → find k threads ≡ find k threads'

least_le :
    (threads : ThreadMap) (pressure k : ℤ) (t : EpollThread)
    → IsLeast pressure threads
    → find k threads ≡ some t
    → pressure ≤ℤ t.pressure
unfolding find
least_le [] pressure k t l e = absurd (ground (arith, e))
least_le ((j, u) ∷ threads) pressure k t l e = elim (Bool-cases (eqb_ℤ j k)) [
  | inl same ↦
      let one : u ≡ t = ground (arith, e, same) in subst (λ x. pressure ≤ℤ x.pressure) one l.0
  | inr other ↦ least_le threads pressure k t l.1 (ground (arith, e, other))
]

antisym : (a b : ℤ) → a ≤ℤ b → b ≤ℤ a → a ≡ b
antisym a b h k = ground (arith, h, k)

-- No thread is found in an empty map.
not_same : (k : ℤ) (t : EpollThread) (threads : ThreadMap) → SameThreads [] ((k, t) ∷ threads) → ⊥
unfolding find
not_same k t threads same =
    let here : eqb_ℤ k k ≡ true = eqb_ℤ_refl k in ground (arith, same k, here)

chosen_first :
    (k : ℤ) (first : EpollThread) (threads : ThreadMap)
    → IsValid ((k, first) ∷ threads)
    → (t : EpollThread) × (get_less_pressure_thread (pos 0) ((k, first) ∷ threads) ≡ some t)
      × IsLeast t.pressure ((k, first) ∷ threads)
      × (find t.thread_id ((k, first) ∷ threads) ≡ some t)
unfolding get_less_pressure_thread
chosen_first k first threads v =
    let (t, found) = some_thread k first threads v in (t, found.0, found.1, found.2)

pub same_pressure :
    (a b : ThreadMap)
    → IsValid a
    → IsValid b
    → SameThreads a b
    → pressure_of (get_less_pressure_thread (pos 0) a)
      ≡ pressure_of (get_less_pressure_thread (pos 0) b)
same_pressure [] [] v w same = refl
same_pressure [] ((k, t) ∷ b) v w same = absurd (not_same k t b same)
same_pressure ((k, t) ∷ a) [] v w same = absurd (not_same k t a (λ j. sym (same j)))
same_pressure ((k, t) ∷ a) ((j, u) ∷ b) v w same =
    let (x, chosen, least, here) = chosen_first k t a v in
    let (y, chosen', least', here') = chosen_first j u b w in
    let le = least_le ((k, t) ∷ a) x.pressure y.thread_id y least (same y.thread_id ∙ here') in
    let ge =
      least_le ((j, u) ∷ b) y.pressure x.thread_id x least' (sym (same x.thread_id) ∙ here) in
    ap pressure_of chosen
    ∙ ap some (antisym x.pressure y.pressure le ge)
    ∙ ap pressure_of (sym chosen')

-- The valid maps, and the same without their order.
abbrev pub Registered : Type 0
Registered = (threads : ThreadMap) × IsValid threads

abbrev pub UnorderedMap : Type 0
UnorderedMap = Quot {α = Registered} (λ a b. SameThreads a.0 b.0)

-- The least pressure of an unordered map of threads, `none` for the empty map.
unfoldable pub least_pressure : UnorderedMap → Option ℤ
least_pressure =
    Quot.lift Option_ℤ_set (λ a. pressure_of (get_less_pressure_thread (pos 0) a.0))
      (λ a b same. same_pressure a.0 b.0 a.1 b.1 same)

-- For a task that names no thread, the pressure of the thread that is chosen is a function of the unordered
-- map: two maps with the same threads under the same numbers, each number once, give the same pressure,
-- in whatever order the iteration meets the threads, and so the pressure is that of the unordered map.
pub least_pressure-unordered :
    (threads threads' : ThreadMap) (v : IsValid threads) (v' : IsValid threads')
    → SameThreads threads threads'
    → (least_pressure (Quot.mk (threads, v))
        ≡ pressure_of (get_less_pressure_thread (pos 0) threads))
      × (pressure_of (get_less_pressure_thread (pos 0) threads)
          ≡ pressure_of (get_less_pressure_thread (pos 0) threads'))
unfolding least_pressure
least_pressure-unordered threads threads' v v' same =
    (refl, same_pressure threads threads' v v' same)
