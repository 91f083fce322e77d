-- ===== src/ThreadPool/Tests.antt =====
-- A run of the pool of thread.c with one worker, and the theorems at the state that it reaches.
use ntu_system_programming.Common.{
  ℕ, ◌+◌, ◌≤◌, ◌<◌, ◌≡◌, ◌≢◌, refl, Bool, true, false, Option, none, some, List, [], ◌∷◌, arith,
}
use ntu_system_programming.ThreadPool.{
  Place, waiting, TaskThread, ThreadPool, Caller, outside, claimed, returned, init_task_thread,
  init_thread_pool, work, dispatch,
}
use ntu_system_programming.ThreadPool.Steps.{worker, dispatcher, call, Reach, here, next}
use ntu_system_programming.ThreadPool.Invariant.{pending, tasks_of}
use ntu_system_programming.ThreadPool.Dispatch.{accepted_once}
use ntu_system_programming.ThreadPool.Progress.{left_at, run_task_progress}

abbrev worker_at : Bool → Option ℕ → Bool → Place → TaskThread
worker_at l a b p = record { locked = l; arg = a; busy = b; place = p }

abbrev idle_worker : TaskThread
idle_worker = worker_at true none false waiting

abbrev pool : List TaskThread → Caller → List (ℕ × ℕ) → ThreadPool
pool ts c log = record { threads = ts; caller = c; accepted = log; executed = [] }

-- The worker has started and waits.
idle_pool : Reach 1 (pool (idle_worker ∷ []) outside [])
unfolding init_thread_pool work
idle_pool =
    next (next here (worker 0 init_task_thread _ none refl refl refl))
      (worker 0 _ idle_worker none refl refl refl)

-- `run_task` has claimed the worker.
claimed_pool : Reach 1 (pool (worker_at true none true waiting ∷ []) (claimed 0 7) [])
unfolding dispatch
claimed_pool = next (next idle_pool (call 7 refl refl)) (dispatcher refl)

-- Task 7 is accepted and the worker has not taken it.
launched_pool :
    Reach 1 (pool (worker_at false (some 7) true waiting ∷ []) (returned true) ((0, 7) ∷ []))
unfolding dispatch
launched_pool = next (next claimed_pool (dispatcher refl)) (dispatcher refl)

accepted_once_example :
    (tasks_of 0 ((0, 7) ∷ []) ≡ 7 ∷ tasks_of 0 [])
    × (1 ≤ 1)
    × (pending (worker_at false (some 7) true waiting) ≢ []
        → work (worker_at false (some 7) true waiting) ≢ none)
accepted_once_example = accepted_once 0 (worker_at false (some 7) true waiting) launched_pool refl

run_task_progress_example :
    (q : ThreadPool) × (dispatch (pool (worker_at true none true waiting ∷ []) (claimed 0 7) [])
      ≡ some q)
    × (left_at (q.caller) 1 < left_at (claimed 0 7) 1)
    × (left_at (claimed 0 7) 1 ≤ 1 + 3)
unfolding left_at
run_task_progress_example = run_task_progress claimed_pool (omega arith)
