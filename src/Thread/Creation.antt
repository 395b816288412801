-- ===== src/Thread/Creation.antt =====
-- The constructor of `Thread`, `run` and the setters (oryx/thread.h, oryx/thread.cpp).
use oryxgame.Common.{Bool, true, false, ◌≡◌, refl, Option, none, some}
use oryxgame.Common.Int.{ℤ, negsuc}

-- What a thread is started with, and its number. `none` is a null pointer.
pub record Creation (Fun Param : Type 0) : Type 0 where
  pub thread_id : ℤ
  pub thread_fun : Option Fun
  pub param : Option Param

module _ {Fun Param : Type 0} where
  unfoldable pub thread_of : Option Fun → Option Param → Creation Fun Param
  thread_of fun param = record { thread_id = negsuc 0; thread_fun = fun; param = param }

  -- `run`, given the number that `pthread_create` stores, if it creates a thread. What it returns is not
  -- looked at.
  unfoldable pub run :
      (Fun → Option Param → Option ℤ) → Creation Fun Param → Bool × Creation Fun Param
  run pthread_create t = elim t.thread_fun [
    | none ↦ (false, t)
    | some fun ↦ elim (pthread_create fun t.param) [
      | none ↦ (true, t)
      | some id ↦ (true, record t { thread_id = id })
    ]
  ]

  unfoldable pub reset_thread_fun : Option Fun → Creation Fun Param → Creation Fun Param
  reset_thread_fun fun t = record t { thread_fun = fun }

  unfoldable pub set_param : Option Param → Creation Fun Param → Creation Fun Param
  set_param param t = record t { param = param }

  -- `run` of a new thread with a function returns true whether or not there is a thread afterwards, and
  -- without one nothing changes, so that its number stays -1. Without a function it returns false and changes
  -- nothing. It makes no difference whether the constructor or the setters give the function and the parameter.
  run-thread_of :
      (create : Fun → Option Param → Option ℤ) (fun : Fun) (param : Option Param)
      → ((run create (thread_of (some fun) param)).0 ≡ true)
        × (create fun param ≡ none
            → (run create (thread_of (some fun) param)).1 ≡ thread_of (some fun) param)
        × (run create (thread_of none param) ≡ (false, thread_of none param))
        × (run create (set_param param (reset_thread_fun (some fun) (thread_of none none)))
            ≡ run create (thread_of (some fun) param))
  unfolding run thread_of reset_thread_fun set_param
  run-thread_of create fun param = (created (create fun param), λ e. rw (e, run) refl, refl, refl)
    where
      created :
          (made : Option ℤ)
          → (elim made as (λ x. Bool × Creation Fun Param) [
            | none ↦ (true, thread_of (some fun) param)
            | some id ↦ (true, record (thread_of (some fun) param) { thread_id = id })
          ]).0
            ≡ true
      created none = refl
      created (some id) = refl
