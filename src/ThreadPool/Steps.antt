-- ===== src/ThreadPool/Steps.antt =====
-- The interleavings of the pool of thread.c, as a step relation, and the runs that they make.
use ntu_system_programming.Common.{ℕ, ◌≡◌, Bool, Option, none, some, List, ◌∷◌, get_elem?, set}
use ntu_system_programming.ThreadPool.{
  TaskThread, ThreadPool, outside, scanning, returned, init_thread_pool, work, dispatch,
}

-- The log after a step of worker `i`.
abbrev pub note : ℕ → Option ℕ → List (ℕ × ℕ) → List (ℕ × ℕ)
note i none log = log
note i (some a) log = (i, a) ∷ log

pub data Step (p q : ThreadPool) : Type 0 where
  -- A worker that is not waiting makes its next access.
  worker :
      (i : ℕ) (t t' : TaskThread) (e : Option ℕ)
      → get_elem? (p.threads) i ≡ some t
      → work t ≡ some (t', e)
      → q ≡ record p { threads = set (p.threads) i t'; executed = note i e (p.executed) }
      → Step p q
  -- The caller of `run_task` makes its next access.
  dispatcher : dispatch p ≡ some q → Step p q
  -- A call `run_task(pool, a)`, and its return.
  call : (a : ℕ) → p.caller ≡ outside → q ≡ record p { caller = scanning 0 a } → Step p q
  return : {b : Bool} → p.caller ≡ returned b → q ≡ record p { caller = outside } → Step p q

pub data Reach (num : ℕ) : ThreadPool → Type 0 where
  here : Reach num (init_thread_pool num)
  next : {p q : ThreadPool} → Reach num p → Step p q → Reach num q
